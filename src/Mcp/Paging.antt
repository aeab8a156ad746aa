-- ===== src/Mcp/Paging.antt =====
-- Lists whose numbers rise, and what comes after one of their members.
use tgup.Prelude.{
  ℕ, ◌≡◌, ◌<◌, refl, ap, ◌∙◌, Bool, true, false, ◌&&◌, List, [], ◌∷◌, ◌++◌, keep, All, All-append,
  ltb, arith, Bool-cases, inl, inr,
}
use mathlib.Core.Path.{subst}

head_or : {A : Type 0} → A → List A → A
head_or a [] = a
head_or a (x ∷ xs) = x

rest_of : {A : Type 0} → List A → List A
rest_of [] = []
rest_of (x ∷ xs) = xs

abbrev Anything : {A : Type 0} → A → Type 0
Anything x = Unit

All-Anything : {A : Type 0} (bs : List A) → All Anything bs
All-Anything [] = tt
All-Anything (b ∷ bs) = (tt, All-Anything bs)

module _ {A : Type 0} (matches : A → Bool) (number : A → ℕ) where
  abbrev pub is_after : ℕ → A → Bool
  is_after since x = matches x && ltb since (number x)

  abbrev pub Before : A → A → Type 0
  Before a b = matches a ≡ true → matches b ≡ true → number a < number b

  -- The numbers of the rows that match rise.
  abbrev pub Rising : List A → Type 0
  Rising [] = Unit
  Rising (a ∷ rows) = All (Before a) rows × Rising rows

  All-keep :
      (P : A → Type 0) (f : A → Bool) (rows : List A)
      → All P rows
      → All (λ x. P x × (f x ≡ true)) (keep f rows)
  All-keep P f [] h = tt
  All-keep P f (a ∷ rows) (h, hs) = elim (Bool-cases (f a)) [
    | inl e ↦ rw e ((h, e), All-keep P f rows hs)
    | inr e ↦ rw e (All-keep P f rows hs)
  ]

  middle : (P : A → Type 0) (xs : List A) (r : A) (ys : List A) → All P (xs ++ r ∷ ys) → P r
  middle P [] r ys (h, hs) = h
  middle P (x ∷ xs) r ys (h, hs) = middle P xs r ys hs

  keep-same :
      (a : A) (since : ℕ) (rows : List A)
      → is_after since a ≡ true
      → All (Before a) rows
      → keep (is_after (number a)) rows ≡ keep (is_after since) rows
  keep-same a since [] h k = refl
  keep-same a since (b ∷ rows) h (k, ks) = ground (arith, keep-same a since rows h ks)

  first_case :
      (since : ℕ) (a : A) (rows zs : List A) (r : A) (ys : List A)
      → All (Before a) rows
      → is_after since a ≡ true
      → ((xs : List A)
          → keep (is_after since) rows ≡ xs ++ r ∷ ys
          → keep (is_after (number r)) rows ≡ ys)
      → a ∷ keep (is_after since) rows ≡ zs ++ r ∷ ys
      → keep (is_after (number r)) (a ∷ rows) ≡ ys
  unfolding head_or rest_of
  first_case since a rows [] r ys h into again d =
      let self : is_after (number a) a ≡ false = ground arith in
      subst (λ q. keep (is_after (number q)) (a ∷ rows) ≡ ys) (ap (head_or a) d)
        (rw self (keep-same a since rows into h ∙ ap rest_of d))
  first_case since a rows (z ∷ zs) r ys h into again d =
      let rest : keep (is_after since) rows ≡ zs ++ r ∷ ys = ap rest_of d in
      let (before, after) =
        middle (λ x. Before a x × (is_after since x ≡ true)) zs r ys
          (subst (All (λ x. Before a x × (is_after since x ≡ true))) rest
            (All-keep (Before a) (is_after since) rows h)) in
      let gone : is_after (number r) a ≡ false = ground (arith, into, after, before) in
      rw gone (again zs rest)

  -- After the rows up to `r` come the rows whose numbers are greater than that of `r`.
  pub rest_after :
      (since : ℕ) (rows xs : List A) (r : A) (ys : List A)
      → Rising rows
      → keep (is_after since) rows ≡ xs ++ r ∷ ys
      → keep (is_after (number r)) rows ≡ ys
  rest_after since [] [] r ys h e = ground (arith, e)
  rest_after since [] (x ∷ xs) r ys h e = ground (arith, e)
  rest_after since (a ∷ rows) xs r ys (h, hs) e = elim (Bool-cases (is_after since a)) [
    | inr out ↦
        let same : keep (is_after since) rows ≡ xs ++ r ∷ ys = ground (arith, e, out) in
        let (x, found) =
          middle (λ x. Anything x × (is_after since x ≡ true)) xs r ys
            (subst (All (λ x. Anything x × (is_after since x ≡ true))) same
              (All-keep Anything (is_after since) rows (All-Anything rows))) in
        let gone : is_after (number r) a ≡ false = ground (arith, out, found) in
        rw gone (rest_after since rows xs r ys hs same)
    | inl into ↦
        first_case since a rows xs r ys h into (λ zs same. rest_after since rows zs r ys hs same)
          (ground (arith, e, into))
  ]

  pub Rising-append :
      (rows : List A) (new : A)
      → Rising rows
      → All (λ a. Before a new) rows
      → Rising (rows ++ new ∷ [])
  Rising-append [] new h k = (tt, tt)
  Rising-append (a ∷ rows) new (h, hs) (k, ks) =
      (All-append (Before a) rows (new ∷ []) h (k, tt), Rising-append rows new hs ks)
