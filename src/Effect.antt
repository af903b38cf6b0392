-- ===== src/Effect.antt =====
-- State with failure: what a call of the program does to a state, with its result or exception.
use delfin.Prelude.{◌≡◌, ap, ◌∙◌, Bool, List, [], ◌∷◌, ◌++◌, fun_ext, if◌then◌else◌, refl}
use delfin.Errors.{Result, ok, err}

abbrev pub Effect : Type 0 → Type 0 → Type 0
Effect S A = S → Result A × S

abbrev pub fold : {A S : Type 0} → (A → S → S) → List A → S → S
fold f [] s = s
fold f (x ∷ xs) s = fold f xs (f x s)

module _ {S : Type 0} where
  infixl 5 ◌>>=◌ ◌>>◌
  abbrev pub ◌>>=◌ : {A B : Type 0} → Effect S A → (A → Effect S B) → Effect S B
  ◌>>=◌ m f d = let (r, d') = m d in elim r [ ok a ↦ f a d' | err e ↦ (err e, d') ]

  abbrev pub ◌>>◌ : {A B : Type 0} → Effect S A → Effect S B → Effect S B
  m >> k = m >>= λ _. k

  abbrev pub pure : {A : Type 0} → A → Effect S A
  pure a d = (ok a, d)

  -- A call that reads no state and may raise.
  abbrev pub lift : {A : Type 0} → Result A → Effect S A
  lift r d = (r, d)

  -- `if test: action`
  abbrev pub when : Bool → Effect S (Unit {0}) → Effect S (Unit {0})
  when test m = if test then m else pure tt

  -- A change of the state that raises nothing.
  abbrev pub modify : (S → S) → Effect S (Unit {0})
  modify f d = (ok tt, f d)

  -- `for x in xs: body`; the first exception ends the loop.
  unfoldable pub for_each : {A : Type 0} → List A → (A → Effect S (Unit {0})) → Effect S (Unit {0})
  for_each [] body = pure tt
  for_each (x ∷ xs) body = body x >> for_each xs body

  -- `try: m except Exception: handler`
  abbrev pub catching : Effect S (Unit {0}) → Effect S (Unit {0}) → Effect S (Unit {0})
  catching m handler d = let (r, d') = m d in elim r [ ok _ ↦ (ok tt, d') | err _ ↦ handler d' ]

  pub >>=-step :
      {A B : Type 0} (m : Effect S A) (f : A → Effect S B) (d d' : S) (a : A)
      → m d ≡ (ok a, d')
      → (m >>= f) d ≡ f a d'
  >>=-step m f d d' a e = rw (ap (λ p. p.0) e, ◌>>=◌) (ap (λ p. f a p.1) e)

  -- A loop whose body takes each element from one known state to the next.
  pub for_each-run :
      {A : Type 0} (body : A → Effect S (Unit {0})) (next : A → S → S) (xs : List A) (d : S)
      → ((x : A) (s : S) → body x s ≡ (ok tt, next x s))
      → for_each xs body d ≡ (ok tt, fold next xs d)
  unfolding for_each
  for_each-run body next [] d h = refl
  for_each-run body next (x ∷ xs) d h =
      >>=-step (body x) (λ _. for_each xs body) d (next x d) tt (h x d)
      ∙ for_each-run body next xs (next x d) h

  abbrev constant : {A : Type 0} → Result A → S → Effect S A
  constant r s d = (r, s)

  pub >>-assoc :
      {A B C : Type 0} (m : Effect S A) (k : A → Effect S B) (l : B → Effect S C) (d : S)
      → (m >>= λ a. k a >>= l) d ≡ (m >>= k >>= l) d
  >>-assoc {A} {B} {C} m k l d = at (m d).0 (m d).1
    where
      at :
          (r : Result A) (s : S)
          → (constant r s >>= λ a. k a >>= l) d ≡ (constant r s >>= k >>= l) d
      at (ok a) s = refl
      at (err e) s = refl

  pub for_each-append :
      {A : Type 0} (xs ys : List A) (body : A → Effect S (Unit {0})) (d : S)
      → for_each (xs ++ ys) body d ≡ (for_each xs body >> for_each ys body) d
  unfolding for_each
  for_each-append [] ys body d = refl
  for_each-append (x ∷ xs) ys body d =
      ap (λ k. (body x >> k) d) (fun_ext (λ s. for_each-append xs ys body s))
      ∙ >>-assoc (body x) (λ _. for_each xs body) (λ _. for_each ys body) d
