-- ===== src/Server/Abe/TempFiles/Restored.antt =====
-- The temporary directory behind a call.
use pabel.Base.{◌≡◌, ◌≢◌, refl, sym, ap, ◌∙◌, false, Option, none, some, List}
use pabel.Base.{[], ◌++◌, Text, codes, is_some, Bool-cases, inl, inr}
use pabel.Base.Exec.{Result, ok, err, lift, proceed, ◌>>◌}
use pabel.Base.Exec.Ran.{ok-eq}
use pabel.Server.Abe.{lf}
use pabel.Server.{Failure}
use pabel.Server.Abe.TempFiles.Others.{
  others, Free, others-Free, unlink_all, unlink-absent, Taken, others-unlink, others-write,
  others-output, first-Taken, second-Taken, third-Taken, unlink_one,
}
use pabel.Server.Abe.TempFiles.{
  Tools, Disk, named, unlink, mkstemp, run_tool, find_bin, make_key, keygen_call, open_with,
  decrypt_call, Call, collect, dec_args, read, created, remove, remove_existing, write_bytes,
}

module _ (T : Tools) where
  -- a call that leaves the other files alone
  abbrev Kept : {A : Type 0} → Text → Text → Text → Call T A → Type 0
  Kept a b c m = (d : Disk T) → others a b c (m d).1.files ≡ others a b c d.files

  then-Kept :
      {A B : Type 0} (a b c : Text) (f : A → Call T B) (got : Result Failure A × Disk T)
      (d : Disk T)
      → others a b c got.1.files ≡ others a b c d.files
      → ((x : A) → Kept a b c (f x))
      → others a b c (proceed f got).1.files ≡ others a b c d.files
  then-Kept a b c f (ok x, v) d h k = k x v ∙ h
  then-Kept a b c f (err e, v) d h k = h

  run_tool-Kept : (a b c command : Text) (args : List Text) → Kept a b c (run_tool T command args)
  unfolding run_tool
  run_tool-Kept a b c command args d =
      then-Kept a b c _ (lift (find_bin T) d) d refl (λ bin v. refl)

  collect-Kept : (k c o : Text) (out : Option Text) → Kept k c o (collect T o out)
  unfolding collect
  collect-Kept k c o out d =
      others-output k c o o out (T.time d.outside).0 d.files (third-Taken k c o)

  write_bytes-Kept : (a b c n content : Text) → Taken a b c n → Kept a b c (write_bytes T n content)
  unfolding write_bytes
  write_bytes-Kept a b c n content taken d =
      let (t, o) = T.time d.outside in
      elim (Bool-cases (T.disk_full o).0) [
        | inl full ↦ rw full refl
        | inr room ↦ rw room (others-write a b c n content t d.files taken)
      ]

  open_with-Kept :
      (key_bytes ciphertext k c o : Text) → Kept k c o (open_with T key_bytes ciphertext k c o)
  unfolding open_with
  open_with-Kept key_bytes ciphertext k c o d =
      then-Kept k c o _ (write_bytes T k (lf key_bytes) d) d
        (write_bytes-Kept k c o k (lf key_bytes) (first-Taken k c o) d)
        (λ _ v.
          then-Kept k c o _ (write_bytes T c (lf ciphertext) v) v
            (write_bytes-Kept k c o c (lf ciphertext) (second-Taken k c o) v)
            (λ _ u.
              then-Kept k c o (collect T o) (run_tool T (codes "oabe_dec") (dec_args T k c o) u) u
                (run_tool-Kept k c o (codes "oabe_dec") (dec_args T k c o) u) (collect-Kept k c o)))

  -- the names that the three calls of `mkstemp` draw
  abbrev pub Names : Disk T → Text → Text → Text → Type 0
  Names d k c o =
      (d1 : Disk T) × (d2 : Disk T) × (d3 : Disk T) × (mkstemp T (codes ".key") (codes "abe_key_") d
        ≡ (ok k, d1))
      × (mkstemp T (codes ".cpabe") (codes "abe_ct_") d1 ≡ (ok c, d2))
      × (mkstemp T (codes ".txt") (codes "abe_pt_") d2 ≡ (ok o, d3))

  not_made : (e : Failure) (n : Text) → ◌≢◌ {A = Result Failure Text} (err e) (ok n)
  not_made e n h = cc

  created-Kept :
      (a b c n : Text) (name : Option Text) (d d' : Disk T)
      → created T name d ≡ (ok n, d')
      → Taken a b c n
      → others a b c d'.files ≡ others a b c d.files
  unfolding created
  created-Kept a b c n none d d' h taken = absurd (not_made _ n (ap (λ x. x.0) h))
  created-Kept a b c n (some name) d d' h taken =
      let same : name ≡ n = ok-eq name n (ap (λ x. x.0) h) in
      ap (others a b c) (sym (ap (λ x. x.1.files) h))
      ∙ others-write a b c name [] (T.time d.outside).0 d.files
          (λ g e. taken g (ap (λ m. named m g) (sym same) ∙ e))

  mkstemp-Kept :
      (a b c n suffix prefix : Text) (d d' : Disk T)
      → mkstemp T suffix prefix d ≡ (ok n, d')
      → Taken a b c n
      → others a b c d'.files ≡ others a b c d.files
  unfolding mkstemp
  mkstemp-Kept a b c n suffix prefix d d' h taken =
      let (name, o) = T.draw_name suffix prefix d.outside in
      created-Kept a b c n name (record d { outside = o }) d' h taken

  remove-unlink :
      (n : Text) (d : Disk T)
      → T.locked n ≡ false
      → remove T n d ≡ (ok tt, record d { files = unlink n d.files })
  unfolding remove
  remove-unlink n d free = rw free refl

  -- a file that can be removed is not there behind it
  remove_existing-unlink :
      (n : Text) (d : Disk T)
      → T.locked n ≡ false
      → remove_existing T n d ≡ (ok tt, record d { files = unlink n d.files })
  unfolding remove_existing
  remove_existing-unlink n d free = elim (Bool-cases (is_some (read n d.files))) [
    | inl there ↦ rw there (remove-unlink n d free)
    | inr gone ↦
        rw gone (ap (λ fs. (ok tt, record d { files = fs })) (sym (unlink-absent n d.files gone)))
  ]

  -- a `finally` that gives the outcome, with the files that it leaves
  finally-files :
      {A : Type 0} (got : Result Failure A × Disk T) (last : Call T Unit) (d' : Disk T)
      → last got.1 ≡ (ok tt, d')
      → (proceed (λ (_ : Unit). lift got.0) (last got.1)).1.files ≡ d'.files
  finally-files got last d' h = rw h refl

  three_removed :
      (k c o : Text) (d : Disk T)
      → T.locked k ≡ false
      → T.locked c ≡ false
      → T.locked o ≡ false
      → (remove_existing T k >> (remove_existing T c >> remove_existing T o)) d
        ≡ (ok tt, record d { files = unlink o (unlink c (unlink k d.files)) })
  three_removed k c o d k_free c_free o_free =
      let d1 : Disk T = record d { files = unlink k d.files } in
      let d2 : Disk T = record d { files = unlink c d1.files } in
      rw
        (
          remove_existing-unlink k d k_free,
          remove_existing-unlink c d1 c_free,
          remove_existing-unlink o d2 o_free,
        )
        refl

  -- Where the three files can be made and removed again, and no file has one of the three names that
  -- are drawn: a decryption leaves the temporary directory as it was, whether it gives a plaintext,
  -- none, or an exception, one of a write included.
  pub decrypt_call-files :
      (key_bytes ciphertext k c o : Text) (d : Disk T)
      → Names d k c o
      → T.locked k ≡ false
      → T.locked c ≡ false
      → T.locked o ≡ false
      → Free k c o d.files
      → (decrypt_call T key_bytes ciphertext d).1.files ≡ d.files
  unfolding decrypt_call
  decrypt_call-files key_bytes ciphertext k c o d (d1, d2, d3, h1, h2, h3) k_free c_free o_free
        free =
      let d4 : Disk T = record d3 { files = unlink o d3.files } in
      let got = open_with T key_bytes ciphertext k c o d4 in
      rw (h1, h2, h3, remove-unlink o d3 o_free)
        (finally-files got (remove_existing T k >> (remove_existing T c >> remove_existing T o)) _
            (three_removed k c o got.1 k_free c_free o_free)
          ∙ unlink_all k c o got.1.files
          ∙ open_with-Kept key_bytes ciphertext k c o d4
          ∙ others-unlink k c o o d3.files (third-Taken k c o)
          ∙ mkstemp-Kept k c o o (codes ".txt") (codes "abe_pt_") d2 d3 h3 (third-Taken k c o)
          ∙ mkstemp-Kept k c o c (codes ".cpabe") (codes "abe_ct_") d1 d2 h2 (second-Taken k c o)
          ∙ mkstemp-Kept k c o k (codes ".key") (codes "abe_key_") d d1 h1 (first-Taken k c o)
          ∙ others-Free k c o d.files free)

module _ (T : Tools) where
  make_key-others :
      (attributes tmp : Text) (bin : Result Failure Text) (d : Disk T)
      → find_bin T ≡ bin
      → others
          (tmp ++ codes ".key")
          (tmp ++ codes ".key")
          (tmp ++ codes ".key")
          (make_key T attributes tmp d).1.files
        ≡ others (tmp ++ codes ".key") (tmp ++ codes ".key") (tmp ++ codes ".key") d.files
  unfolding make_key run_tool
  make_key-others attributes tmp (err e) d h = rw h refl
  make_key-others attributes tmp (ok bin) d h =
      let key = tmp ++ codes ".key" in
      rw h (others-output key key key key _ _ d.files (first-Taken key key key))

  -- Where the file can be made and removed again, and the key's file can be removed, and no file has
  -- the name that is drawn, nor that name with .key behind it: making a key leaves the temporary
  -- directory as it was, whether it gives a key or an exception.
  pub keygen_call-files :
      (attributes tmp : Text) (d d1 : Disk T)
      → mkstemp T [] (codes "abe_key_") d ≡ (ok tmp, d1)
      → T.locked tmp ≡ false
      → T.locked (tmp ++ codes ".key") ≡ false
      → Free tmp tmp tmp d.files
      → Free (tmp ++ codes ".key") (tmp ++ codes ".key") (tmp ++ codes ".key") d.files
      → (keygen_call T attributes d).1.files ≡ d.files
  unfolding keygen_call
  keygen_call-files attributes tmp d d1 drawn tmp_free key_free free free_key =
      let key = tmp ++ codes ".key" in
      let d2 : Disk T = record d1 { files = unlink tmp d1.files } in
      let got = make_key T attributes tmp d2 in
      let back : unlink tmp d1.files ≡ d.files =
        unlink_one tmp d1.files
        ∙ mkstemp-Kept T tmp tmp tmp tmp [] (codes "abe_key_") d d1 drawn (first-Taken tmp tmp tmp)
        ∙ others-Free tmp tmp tmp d.files free in
      rw (drawn, remove-unlink T tmp d1 tmp_free)
        (finally-files T got (remove_existing T key) _ (remove_existing-unlink T key got.1 key_free)
          ∙ unlink_one key got.1.files
          ∙ make_key-others attributes tmp (find_bin T) d2 refl
          ∙ ap (others key key key) back
          ∙ others-Free key key key d.files free_key)
