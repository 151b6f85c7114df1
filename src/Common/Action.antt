-- ===== src/Common/Action.antt =====
-- Code that changes a state and may raise: the state that it leaves stays when it raises.
use mathlib.Core.Path.{◌≡◌, refl, sym, ap, ◌∙◌}
use mathlib.Core.List.{List, [], ◌∷◌, ◌++◌}
use whatsapp_cli.Common.Outcome.{Exc, Outcome, raise, ok}

abbrev pub Action : Type 0 → Type 0 → Type 0
Action S A = S → S × Outcome A

abbrev pub after_step : {S A B : Type 0} → S × Outcome A → (A → Action S B) → S × Outcome B
after_step (s, raise e) rest = (s, raise e)
after_step (s, ok a) rest = rest a s

infixl 5 ◌>>=◌ ◌>>◌
abbrev pub ◌>>=◌ : {S B A : Type 0} → Action S A → (A → Action S B) → Action S B
(step >>= rest) s = after_step (step s) rest

abbrev pub ◌>>◌ : {S B : Type 0} → Action S (Unit {0}) → Action S B → Action S B
(step >> rest) s = after_step (step s) (λ u. rest)

abbrev pub return : {S A : Type 0} → A → Action S A
return a s = (s, ok a)

abbrev pub done : {S : Type 0} → Action S (Unit {0})
done s = (s, ok tt)

abbrev pub throw : {S A : Type 0} → Exc → Action S A
throw e s = (s, raise e)

abbrev pub modify : {S : Type 0} → (S → S) → Action S (Unit {0})
modify f s = (f s, ok tt)

-- `for x in xs: body(x)`
unfoldable pub for_each : {S A : Type 0} → (A → Action S (Unit {0})) → List A → Action S (Unit {0})
for_each body [] s = (s, ok tt)
for_each body (x ∷ xs) s = after_step (body x s) (λ u. for_each body xs)

-- `try: step except Exception: return default`
abbrev pub otherwise : {S A : Type 0} → S × Outcome A → A → S × Outcome A
otherwise (s, raise e) a = (s, ok a)
otherwise (s, ok b) a = (s, ok b)

pub after_step_assoc :
    {S A B C : Type 0} (p : S × Outcome A) (f : A → Action S B) (g : B → Action S C)
    → after_step (after_step p f) g ≡ after_step p (λ a s. after_step (f a s) g)
after_step_assoc (s, raise e) f g = refl
after_step_assoc (s, ok a) f g = refl

pub after_step-done :
    {S : Type 0} (p : S × Outcome (Unit {0})) → after_step p (λ u s. (s, ok tt)) ≡ p
after_step-done (s, raise e) = refl
after_step-done (s, ok tt) = refl

pub for_each-append :
    {S A : Type 0} (body : A → Action S (Unit {0})) (xs ys : List A) (s : S)
    → for_each body (xs ++ ys) s ≡ after_step (for_each body xs s) (λ u. for_each body ys)
unfolding for_each
for_each-append body [] ys s = refl
for_each-append body (x ∷ xs) ys s =
    ap (λ k. after_step (body x s) (λ (u : Unit {0}). k)) (λ i t. for_each-append body xs ys t i)
    ∙ sym (after_step_assoc (body x s) (λ u. for_each body xs) (λ u. for_each body ys))
