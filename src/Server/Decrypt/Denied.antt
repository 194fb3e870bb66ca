-- ===== src/Server/Decrypt/Denied.antt =====
-- What `decrypt_document` shows of the sections that a key does not open.
use pabel.Base.{ℕ, zero, suc, ◌+◌, ◌≡◌, refl, ap, sym, ◌∙◌, false}
use pabel.Base.{Option, none, some, List, [], ◌∷◌, map, arith}
use pabel.Base.{Text, codes, nat_eq, contains, length, get_elem?, replicate}
use native.Mathlib.Nat.{zero-add}
use mathlib.Core.Path.{subst}
use pabel.Base.Exec.{Result, ok, err}
use pabel.Json.{Json, null, str}
use pabel.Server.{Services, Failure}
use pabel.Server.Abe.{decrypt_bytes}
use pabel.Server.Document.{Group, Section, Payload, gated, load_abe}
use pabel.Server.Decrypt.{
  positions, give, give_all, decrypt_with, decrypt_each, decrypt_groups, decrypt_document,
  SectionView, views, view_of, policy_of, ◌>>=◌,
}
use pabel.Server.Decrypt.Kept.{
  give-ne, positions-ne, Skips, Skips-later, Skips-next, chained, bind-ok, ok_inj, first_none,
  some_inj, get_elem?-replicate, lt-length, get_elem?-views,
}

-- how a section of a group that stays closed is listed
abbrev pub closed_view : Section → Group → SectionView
closed_view s g = record {
  name = s.name;
  policy = g.policy;
  accessible = false;
  text = str (codes "[ACCESS DENIED]");
}

-- what every reader sees of a section
abbrev pub heading : SectionView → Text × Json
heading v = (v.name, v.policy)

abbrev headings_of : List Group → List Section → List (Text × Json)
headings_of groups [] = []
headings_of groups (s ∷ ss) = (s.name, policy_of (get_elem? groups s.group)) ∷ headings_of groups ss

map-views :
    (groups : List Group) (ss : List Section) (texts : List Json)
    → map heading (views groups ss texts) ≡ headings_of groups ss
unfolding views view_of
map-views groups [] texts = refl
map-views groups (s ∷ ss) [] =
    ap (λ v. (s.name, policy_of (get_elem? groups s.group)) ∷ v) (map-views groups ss [])
map-views groups (s ∷ ss) (t ∷ texts) =
    ap (λ v. (s.name, policy_of (get_elem? groups s.group)) ∷ v) (map-views groups ss texts)

module _ (S : Services) where
  give_all-Skips :
      (k : ℕ) (ss : List Section) (rs : List (Option (List Json))) (texts : List Json) (i : ℕ)
      (s : Section)
      → get_elem? ss i ≡ some s
      → Skips s.group k rs
      → get_elem? (give_all S k ss rs texts) i ≡ get_elem? texts i
  unfolding give_all
  give_all-Skips k ss [] texts i s h skips = refl
  give_all-Skips k ss (none ∷ rs) texts i s h skips = give_all-Skips (suc k) ss rs texts i s h skips
  give_all-Skips k ss (some ts ∷ rs) texts i s h skips =
      give_all-Skips (suc k) ss rs (give (positions k 0 ss) ts texts) i s h skips.1
      ∙ give-ne (positions k 0 ss) ts texts i (
          subst (λ n. contains n (positions k 0 ss) ≡ false) (zero-add i)
            (positions-ne k 0 ss i s h skips.0))

  decrypt_with-closed :
      (key : Text) (n : ℕ) (payload : Payload) (c : Text)
      → payload ≡ gated c
      → decrypt_bytes S key c ≡ none
      → decrypt_with S key n payload ≡ ok none
  unfolding decrypt_with
  decrypt_with-closed key n payload c p d = ground arith

  decrypt_each-Skips :
      (key : Text) (k : ℕ) (ss : List Section) (gs : List Group) (n : ℕ) (g : Group)
      (ciphertext : Text) (rs : List (Option (List Json)))
      → get_elem? gs n ≡ some g
      → g.payload ≡ gated ciphertext
      → decrypt_bytes S key ciphertext ≡ none
      → decrypt_each S key k ss gs ≡ ok rs
      → Skips (k + n) k rs
  unfolding decrypt_each
  decrypt_each-Skips key k ss [] n g c rs h p d e = cc
  decrypt_each-Skips key k ss (x ∷ gs) zero g c rs h p d e =
      let it =
        chained (decrypt_with S key (length (positions k 0 ss)) x.payload)
          (decrypt_each S key (suc k) ss gs) rs e in
      subst (λ o. Skips (k + 0) k o) (sym it.whole)
        (subst (λ o. Skips (k + 0) k (o ∷ it.others))
          (first_none (decrypt_with S key (length (positions k 0 ss)) x.payload) it.one
            (decrypt_with-closed key (length (positions k 0 ss)) x.payload c
              (subst (λ o. o.payload ≡ gated c) (some_inj x g h) p) d)
            it.now)
          (Skips-later (k + 0) (suc k) it.others (omega arith)))
  decrypt_each-Skips key k ss (x ∷ gs) (suc n) g c rs h p d e =
      let it =
        chained (decrypt_with S key (length (positions k 0 ss)) x.payload)
          (decrypt_each S key (suc k) ss gs) rs e in
      subst (λ o. Skips (k + suc n) k o) (sym it.whole)
        (Skips-next (k + suc n) k it.one it.others (omega arith) (
          subst (λ i. Skips i (suc k) it.others) (omega arith)
            (decrypt_each-Skips key (suc k) ss gs n g c it.others h p d it.later)))

  decrypt_groups-closed :
      (key : Text) (ss : List Section) (gs : List Group) (texts : List Json) (i : ℕ) (s : Section)
      (g : Group) (ciphertext : Text)
      → get_elem? ss i ≡ some s
      → get_elem? gs s.group ≡ some g
      → g.payload ≡ gated ciphertext
      → decrypt_bytes S key ciphertext ≡ none
      → decrypt_groups S key ss gs ≡ ok texts
      → get_elem? texts i ≡ some null
  unfolding decrypt_groups
  decrypt_groups-closed key ss gs texts i s g c h hg p d e =
      let it =
        bind-ok (decrypt_each S key 0 ss gs)
          (λ rs. ok (give_all S 0 ss rs (replicate (length ss) null))) texts e in
      let same = give_all-Skips 0 ss it.value (replicate (length ss) null) i s h (
        subst (λ n. Skips n 0 it.value) (zero-add s.group)
          (decrypt_each-Skips key 0 ss gs s.group g c it.value hg p d it.given)) in
      subst (λ ts. get_elem? ts i ≡ some null) (ok_inj it.gives)
        (same ∙ get_elem?-replicate (length ss) i null (lt-length ss i s h))

  headings_of-ok :
      (key : Text) (vs : List SectionView) (ss : List Section) (gs : List Group)
      → (decrypt_groups S key ss gs >>= λ texts. ok (views gs ss texts)) ≡ ok vs
      → map heading vs ≡ headings_of gs ss
  headings_of-ok key vs ss gs e =
      let it = bind-ok (decrypt_groups S key ss gs) (λ texts. ok (views gs ss texts)) vs e in
      subst (λ us. map heading us ≡ headings_of gs ss) (ok_inj it.gives) (map-views gs ss it.value)

  headings_eq :
      (key other : Text) (vs ws : List SectionView) (m : Result Failure (List Section × List Group))
      → (m >>= λ r. (decrypt_groups S key r.0 r.1 >>= λ texts. ok (views r.1 r.0 texts))) ≡ ok vs
      → (m >>= λ r. (decrypt_groups S other r.0 r.1 >>= λ texts. ok (views r.1 r.0 texts))) ≡ ok ws
      → map heading vs ≡ map heading ws
  headings_eq key other vs ws (ok (ss, gs)) e f =
      headings_of-ok key vs ss gs e ∙ sym (headings_of-ok other ws ss gs f)
  headings_eq key other vs ws (err x) e f = cc

  -- In a document that was read, a section of a group whose ciphertext the key does not open is
  -- listed with its name and policy, as not accessible, with the fixed text for a denial, whatever
  -- the other groups gave.
  pub decrypt_document-closed :
      (content key : Text) (ss : List Section) (gs : List Group) (vs : List SectionView) (i : ℕ)
      (s : Section) (g : Group) (ciphertext : Text)
      → load_abe S content ≡ ok (ss, gs)
      → get_elem? ss i ≡ some s
      → get_elem? gs s.group ≡ some g
      → g.payload ≡ gated ciphertext
      → decrypt_bytes S key ciphertext ≡ none
      → decrypt_document S content key ≡ ok vs
      → get_elem? vs i ≡ some (closed_view s g)
  unfolding decrypt_document view_of
  decrypt_document-closed content key ss gs vs i s g c l h hg p d e =
      let it =
        bind-ok (decrypt_groups S key ss gs) (λ texts. ok (views gs ss texts)) vs
          (subst
            (λ m.
              (m >>= λ r. (decrypt_groups S key r.0 r.1 >>= λ texts. ok (views r.1 r.0 texts)))
              ≡ ok vs)
            l e) in
      subst (λ us. get_elem? us i ≡ some (closed_view s g)) (ok_inj it.gives)
        (get_elem?-views gs ss it.value i s null h
            (decrypt_groups-closed key ss gs it.value i s g c h hg p d it.given)
          ∙ ap
              (λ o. some (record {
                name = s.name;
                policy = policy_of o;
                accessible = false;
                text = str (codes "[ACCESS DENIED]");
              }))
              hg)

  -- Two keys that read a document see the same sections, in the same order, each with the same
  -- name and policy.
  pub decrypt_document-headings :
      (content key other : Text) (vs ws : List SectionView)
      → decrypt_document S content key ≡ ok vs
      → decrypt_document S content other ≡ ok ws
      → map heading vs ≡ map heading ws
  unfolding decrypt_document
  decrypt_document-headings content key other vs ws e f =
      headings_eq key other vs ws (load_abe S content) e f
