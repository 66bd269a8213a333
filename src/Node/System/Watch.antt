-- ===== src/Node/System/Watch.antt =====
-- An observer of the node's events: what was published of the poses, and what was said about it.
use ros2_dji_serial_bridge.Base.{
  ℕ, ◌≡◌, refl, sym, ap, ap₂, subst, ◌∙◌, List, [], ◌∷◌, ◌++◌, Option, none, some, All, ◌==◌,
  if◌then◌else◌,
}
use ros2_dji_serial_bridge.Base.Watch.{
  state_after, said_along, state_after-append, said_along-append,
}
use ros2_dji_serial_bridge.Node.State.{Node, Event, Log}
use ros2_dji_serial_bridge.Node.Handlers.{odom_status_name}
use ros2_dji_serial_bridge.Node.Callbacks.{previous_pose}
use ros2_dji_serial_bridge.Node.Actions.{IsPlain}

-- What an observer of the events knows: the last pose published, and its odometry status.
pub record Seen : Type 0 where
  pub pose : Option (ℕ × ℕ)
  pub status : ℕ

abbrev pub nothing_seen : Seen
nothing_seen = record { pose = none; status = 0 }

unfoldable pub watch : Seen → Event → Seen
watch seen (Event.published_pose m) = record { pose = some (m.x, m.y); status = m.odom_status }
watch seen (Event.published_ref_sys m) = seen
watch seen (Event.published_ping m) = seen
watch seen (Event.logged line) = seen
watch seen (Event.wrote frame result) = seen

-- The line that a change of the odometry status calls for, and the lines about it that were logged.
abbrev pub announcement : (previous status : ℕ) → Log
announcement previous status =
    if status == 0
    then Log.odom_back previous (odom_status_name previous)
    else if status == 2
    then Log.odom_no_source status (odom_status_name status)
    else Log.odom_degraded status (odom_status_name status)

unfoldable pub due : Seen → Event → List Log
due seen (Event.published_pose m) =
    if m.odom_status == seen.status then [] else announcement seen.status m.odom_status ∷ []
due seen (Event.published_ref_sys m) = []
due seen (Event.published_ping m) = []
due seen (Event.logged line) = []
due seen (Event.wrote frame result) = []

unfoldable pub about_odom : Log → List Log
about_odom (Log.odom_back previous name) = Log.odom_back previous name ∷ []
about_odom (Log.odom_no_source status name) = Log.odom_no_source status name ∷ []
about_odom (Log.odom_degraded status name) = Log.odom_degraded status name ∷ []
about_odom _ = []

unfoldable pub announced : Seen → Event → List Log
unfolding about_odom
announced seen (Event.published_pose m) = []
announced seen (Event.published_ref_sys m) = []
announced seen (Event.published_ping m) = []
announced seen (Event.logged line) = about_odom line
announced seen (Event.wrote frame result) = []

-- What an observer has seen.
abbrev pub seen_in : List Event → Seen
seen_in es = state_after watch nothing_seen es

pub record IsFollowed (n : Node) : Type 0 where
  pub pose : previous_pose n ≡ (seen_in n.events).pose
  pub status : n.last_odom_status ≡ (seen_in n.events).status
  pub odom :
      said_along watch announced nothing_seen n.events ≡ said_along watch due nothing_seen n.events

-- What is appended to the events from `seen` on: where it leads, and that its lines are those due.
pub record Follows (seen : Seen) (es : List Event) (after : Seen) : Type 0 where
  pub leads : state_after watch seen es ≡ after
  pub odom : said_along watch announced seen es ≡ said_along watch due seen es

-- Following on.
pub IsFollowed-append :
    (n t : Node) (es : List Event)
    → IsFollowed n
    → t.events ≡ n.events ++ es
    → Follows (seen_in n.events) es (record { pose = previous_pose t; status = t.last_odom_status })
    → IsFollowed t
IsFollowed-append n t es h e f =
    let there : seen_in t.events ≡ record { pose = previous_pose t; status = t.last_odom_status } =
      ap (λ (xs : List Event). seen_in xs) e
      ∙ state_after-append watch nothing_seen n.events es
      ∙ f.leads in
    record {
      pose = sym (ap (λ (s : Seen). s.pose) there);
      status = sym (ap (λ (s : Seen). s.status) there);
      odom =
          subst
            (λ xs.
              said_along watch announced nothing_seen xs ≡ said_along watch due nothing_seen xs)
            (sym e)
            (said_along-append watch announced nothing_seen n.events es
              ∙ ap₂ ◌++◌ h.odom f.odom
              ∙ sym (said_along-append watch due nothing_seen n.events es));
    }

-- What no observer of the poses takes note of.
pub record IsQuiet (e : Event) : Type 0 where
  pub stays : (seen : Seen) → watch seen e ≡ seen
  pub announced_none : (seen : Seen) → announced seen e ≡ []
  pub due_none : (seen : Seen) → due seen e ≡ []

pub quiet-Follows : (seen : Seen) (es : List Event) → All IsQuiet es → Follows seen es seen
unfolding state_after said_along
quiet-Follows seen [] q = record { leads = refl; odom = refl }
quiet-Follows seen (e ∷ es) (q, qs) =
    let rest = quiet-Follows seen es qs in
    let here = sym (q.stays seen) in
    record {
      leads = ap (λ s. state_after watch s es) (q.stays seen) ∙ rest.leads;
      odom =
          ap₂ ◌++◌ (q.announced_none seen ∙ sym (q.due_none seen)) (
            subst (λ s. said_along watch announced s es ≡ said_along watch due s es) here
              rest.odom);
    }

pub line-IsQuiet : (line : Log) → IsPlain line → IsQuiet (Event.logged line)
unfolding watch due announced about_odom
line-IsQuiet (Log.odom_back previous name) h = absurd h
line-IsQuiet (Log.odom_no_source status name) h = absurd h
line-IsQuiet (Log.odom_degraded status name) h = absurd h
line-IsQuiet (Log.relocalized count previous x y) h = absurd h
line-IsQuiet _ h = record {
  stays = λ seen. refl;
  announced_none = λ seen. refl;
  due_none = λ seen. refl;
}

-- Quiet events, with no change of what is remembered.
pub quiet-IsFollowed :
    (n t : Node) (es : List Event)
    → All IsQuiet es
    → t.events ≡ n.events ++ es
    → previous_pose t ≡ previous_pose n
    → t.last_odom_status ≡ n.last_odom_status
    → IsFollowed n
    → IsFollowed t
quiet-IsFollowed n t es q e p s h =
    let same : seen_in n.events ≡ record { pose = previous_pose t; status = t.last_odom_status } =
      sym (
        ap₂ (λ pose status. let seen : Seen = record { pose = pose; status = status } in seen)
          (p ∙ h.pose) (s ∙ h.status)) in
    IsFollowed-append n t es h e
      (subst (Follows (seen_in n.events) es) same (quiet-Follows (seen_in n.events) es q))

-- The events that are no pose and no line.
abbrev IsOther : Event → Type 0
IsOther (Event.published_pose m) = ⊥
IsOther (Event.logged line) = ⊥
IsOther _ = Unit {0}

pub other-IsQuiet : (e : Event) → IsOther e → IsQuiet e
unfolding watch due announced
other-IsQuiet (Event.published_pose m) h = absurd h
other-IsQuiet (Event.logged line) h = absurd h
other-IsQuiet _ h = record {
  stays = λ seen. refl;
  announced_none = λ seen. refl;
  due_none = λ seen. refl;
}
