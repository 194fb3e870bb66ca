-- ===== src/Server/GenerateRealm/Filled.antt =====
-- What generate_realm.py writes.
use pabel.Base.{ℕ, zero, ◌≡◌, ◌≢◌, refl, sym, ap, ◌∙◌, Bool, true, false}
use pabel.Base.{some, List, [], ◌∷◌, ◌++◌, arith, All, inl, inr, Option-cases}
use pabel.Base.{Text, codes, is_empty, starts_with}
use pabel.Base.Exec.{ok, lift, gets, ◌>>=◌}
use pabel.Base.Exec.Ran.{lift-ran}
use pabel.Server.{Services}
use pabel.Server.Deployment.{Desk, Deploy}
use pabel.Server.GenerateRealm.{
  span, match_at, find_all, closed, fill, generate_realm, written, is_word, names, given_values,
  file_of, fill_template,
}

module _ (word : ℕ → Bool) where
  span-word :
      (w rest : Text) (c : ℕ)
      → All (λ d. word d ≡ true) w
      → word c ≡ false
      → span word (w ++ (c ∷ rest)) ≡ (w, c ∷ rest)
  unfolding span
  span-word [] rest c all_word h = ground (arith, h)
  span-word (d ∷ w) rest c (first, more) h =
      rw first (ap (λ p. (d ∷ p.0, p.1)) (span-word w rest c more h))

  match_at-placeholder :
      (w b : Text)
      → All (λ d. word d ≡ true) w
      → is_empty w ≡ false
      → word b'}' ≡ false
      → match_at word (codes "{{" ++ (w ++ (codes "}}" ++ b))) ≡ some w
  unfolding match_at starts_with
  match_at-placeholder w b all_word some_word h =
      ap (closed word) (span-word w (b'}' ∷ b) b'}' all_word h) ∙ rw some_word refl

  find_all-found :
      (a : Text) (c : ℕ) (s w : Text)
      → match_at word (c ∷ s) ≡ some w
      → find_all word zero (a ++ (c ∷ s)) ≢ []
  unfolding find_all
  find_all-found [] c s w h = rw (find_all, h) (λ e. cc)
  find_all-found (d ∷ a) c s w h = elim (Option-cases (match_at word (d ∷ (a ++ (c ∷ s))))) [
    | inl free ↦ rw (find_all, free) (find_all-found a c s w h)
    | inr (v, found) ↦ rw (find_all, found) (λ e. cc)
  ]

module _ (S : Services) (D : Deploy S) where
  written-ran :
      (text : Text) (left_over : List Text) (d d' : Desk S)
      → written S D text left_over d ≡ (ok tt, d')
      → (left_over ≡ []) × (d'.realm_file ≡ some text)
  unfolding written
  written-ran text [] d d' h = (refl, sym (ap (λ x. x.1.realm_file) h))
  written-ran text (name ∷ left_over) d d' h = cc

  -- what is written is a filled text in which the search finds nothing
  pub generate_realm-ran :
      (d d' : Desk S)
      → generate_realm S D d ≡ (ok tt, d')
      → (text : Text) × (d'.realm_file ≡ some text) × (find_all (is_word S D) zero text ≡ [])
  unfolding generate_realm fill_template
  generate_realm-ran d d' h =
      let (vs, given, h1) =
        lift-ran (given_values S D)
          (λ vs.
            gets (λ (x : Desk S). x.template) >>= λ t. lift (file_of t) >>= fill_template S D vs)
          d d' tt h in
      let (template, read, h2) = lift-ran (file_of d.template) (fill_template S D vs) d d' tt h1 in
      let text = fill names vs template in
      let (nothing_left, file) = written-ran text (find_all (is_word S D) zero text) d d' h2 in
      (text, file, nothing_left)

  -- Where generate_realm.py succeeds, the realm file that it writes has no placeholder: it is not the
  -- case that two opening braces, a word and two closing braces stand in it anywhere.
  pub generate_realm-filled :
      (d d' : Desk S) (text a w b : Text)
      → generate_realm S D d ≡ (ok tt, d')
      → d'.realm_file ≡ some text
      → All (λ c. is_word S D c ≡ true) w
      → is_empty w ≡ false
      → text ≢ a ++ (codes "{{" ++ (w ++ (codes "}}" ++ b)))
  generate_realm-filled d d' text a w b h file all_word some_word e =
      let (text', file', nothing_left) = generate_realm-ran d d' h in
      let same : text' ≡ text = cc (file, file') in
      find_all-found (is_word S D) a b'{' (b'{' ∷ (w ++ (codes "}}" ++ b))) w
        (match_at-placeholder (is_word S D) w b all_word some_word refl)
        (ap (find_all (is_word S D) zero) (sym (same ∙ e)) ∙ nothing_left)
