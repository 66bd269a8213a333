-- ===== src/Base/Watch.antt =====
-- A state that follows a list from its front, and what is said on the way.
use mathlib.Core.List.{List, [], ◌∷◌, ◌++◌, append_assoc}
use mathlib.Core.Path.{◌≡◌, refl, sym, ap, ◌∙◌}

module _ {ℓ κ} {A : Type ℓ} {S : Type κ} (step : S → A → S) where
  unfoldable pub state_after : S → List A → S
  state_after s [] = s
  state_after s (x ∷ xs) = state_after (step s x) xs

  unfoldable pub said_along {μ} : {B : Type μ} → (S → A → List B) → S → List A → List B
  said_along say s [] = []
  said_along say s (x ∷ xs) = say s x ++ said_along say (step s x) xs

  pub state_after-append :
      (s : S) (xs ys : List A) → state_after s (xs ++ ys) ≡ state_after (state_after s xs) ys
  unfolding state_after
  state_after-append s [] ys = refl
  state_after-append s (x ∷ xs) ys = state_after-append (step s x) xs ys

  pub said_along-append {μ} :
      {B : Type μ}
      → (say : S → A → List B) (s : S) (xs ys : List A)
      → said_along say s (xs ++ ys) ≡ said_along say s xs ++ said_along say (state_after s xs) ys
  unfolding said_along state_after
  said_along-append say s [] ys = refl
  said_along-append say s (x ∷ xs) ys =
      ap (λ t. say s x ++ t) (said_along-append say (step s x) xs ys)
      ∙ sym (append_assoc (say s x) (said_along say (step s x) xs) _)
