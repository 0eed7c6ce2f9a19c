-- ===== src/Streaming/Generator/Joined.antt =====
-- What a segment file holds once it is generated. An operating system is any that behaves as
-- `IsOs` says; its operations may fail.
use vaultflix.Base.{
  Str, codes, has_prefix, false, Option, none, some, List, [], ◌∷◌, ◌++◌, All, append_assoc,
  append-nil, ◌≡◌, ◌≢◌, inl, inr, refl, sym, Option-cases, ◌∙◌, ap,
}
use vaultflix.Errors.{Error}
use vaultflix.Paths.{join}
use vaultflix.Streaming.Generator.{Os, append_parts, copy_parts, concat_parts}

-- What `os`, `io.Copy` and the file system do to the bytes of a file.
pub record IsOs {D : Type 0} (os : Os D) (content : Str → D → Option Str) : Type 0 where
  pub rename_done :
      (a b : Str) (d : D) → (os.rename a b d).1 ≡ none → content b (os.rename a b d).0 ≡ content a d
  pub rename_failed :
      (a b : Str) (e : Error) (d : D)
      → (os.rename a b d).1 ≡ some e
      → (q : Str) → content q (os.rename a b d).0 ≡ content q d
  pub create_done :
      (p : Str) (d : D) → (os.create p d).1 ≡ none → content p (os.create p d).0 ≡ some []
  pub create_other : (p q : Str) (d : D) → q ≢ p → content q (os.create p d).0 ≡ content q d
  pub open_there : (p : Str) (d : D) → os.open_ p d ≡ none → (b : Str) × (content p d ≡ some b)
  pub copy_done :
      (out src old b : Str) (d : D)
      → (os.copy out src d).1 ≡ none
      → content out d ≡ some old
      → content src d ≡ some b
      → content out (os.copy out src d).0 ≡ some (old ++ b)
  pub copy_other :
      (out src q : Str) (d : D) → q ≢ out → content q (os.copy out src d).0 ≡ content q d
  pub close_keeps : (p q : Str) (d : D) → content q (os.close p d).0 ≡ content q d
  pub remove_keeps :
      (dir q : Str) (d : D)
      → q ≢ dir
      → has_prefix (dir ++ codes "/") q ≡ false
      → content q (os.remove_all dir d).0 ≡ content q d

abbrev appended : Option Str → Option Str → Option Str
appended (some a) (some b) = some (a ++ b)
appended _ _ = none

module _ {D : Type 0} (content : Str → D → Option Str) (dir : Str) where
  -- the bytes of the parts, one after the other; `none` where a part is missing
  abbrev pub joined : List Str → D → Option Str
  joined [] d = some []
  joined (n ∷ ns) d = appended (content (join dir n) d) (joined ns d)

  -- no part is the file `out`
  abbrev pub Apart : Str → List Str → Type 0
  Apart out names = All (λ n. join dir n ≢ out) names

  joined-kept :
      (out : Str) (names : List Str) (d e : D)
      → Apart out names
      → ((q : Str) → q ≢ out → content q e ≡ content q d)
      → joined names e ≡ joined names d
  joined-kept out [] d e _ k = refl
  joined-kept out (n ∷ ns) d e (a, apart) k =
      rw (k (join dir n) a, joined-kept out ns d e apart k) refl

module _ {D : Type 0} {os : Os D} {content : Str → D → Option Str} (laws : IsOs os content)
    (dir out : Str) where
  Appends : List Str → Str → D → D → Type 0
  Appends names old d e =
      (b : Str) × (joined content dir names d ≡ some b) × (content out e ≡ some (old ++ b))

  -- one part more in front
  extend :
      (n : Str) (ns : List Str) (old : Str) (d e : D)
      → join dir n ≢ out
      → Apart content dir out ns
      → content out d ≡ some old
      → os.open_ (join dir n) d ≡ none
      → (os.copy out (join dir n) d).1 ≡ none
      → ((b : Str)
          → content out (os.copy out (join dir n) d).0 ≡ some (old ++ b)
          → Appends ns (old ++ b) (os.copy out (join dir n) d).0 e)
      → Appends (n ∷ ns) old d e
  unfolding Appends
  extend n ns old d e a apart c o f rest =
      let (b, there) = laws.open_there (join dir n) d o in
      let (bs, j, whole) = rest b (laws.copy_done out (join dir n) old b d f c there) in
      let kept =
        joined-kept content dir out ns d (os.copy out (join dir n) d).0 apart
          (λ q k. laws.copy_other out (join dir n) q d k) in
      (b ++ bs, rw (there, sym kept, j) refl, whole ∙ ap some (append_assoc old b bs))

  append_parts-step :
      (n : Str) (ns : List Str) (d : D)
      → os.open_ (join dir n) d ≡ none
      → (os.copy out (join dir n) d).1 ≡ none
      → append_parts os dir (n ∷ ns) out d
        ≡ append_parts os dir ns out (os.copy out (join dir n) d).0
  unfolding append_parts
  append_parts-step n ns d o f = rw (o, f, append_parts) refl

  append_parts-fails :
      (n : Str) (ns : List Str) (d : D)
      → (append_parts os dir (n ∷ ns) out d).1 ≡ none
      → (os.open_ (join dir n) d ≡ none) × ((os.copy out (join dir n) d).1 ≡ none)
  unfolding append_parts
  append_parts-fails n ns d h = elim (Option-cases (os.open_ (join dir n) d)) [
    | inr (e, o) ↦ absurd (cc (rw (o, append_parts) at h))
    | inl o ↦ elim (Option-cases ((os.copy out (join dir n) d).1)) [
      | inr (e, f) ↦ absurd (cc (rw (o, f, append_parts) at h))
      | inl f ↦ (o, f)
    ]
  ]

  append_parts-nil :
      (old : Str) (d : D)
      → content out d ≡ some old
      → Appends [] old d (append_parts os dir [] out d).0
  unfolding append_parts Appends
  append_parts-nil old d c =
      ([], refl, laws.close_keeps out out d ∙ c ∙ ap some (sym (append-nil old)))

  append_parts-Appends :
      (names : List Str) (old : Str) (d : D)
      → Apart content dir out names
      → content out d ≡ some old
      → (append_parts os dir names out d).1 ≡ none
      → Appends names old d (append_parts os dir names out d).0
  append_parts-Appends [] old d _ c h = append_parts-nil old d c
  append_parts-Appends (n ∷ ns) old d (a, apart) c h =
      let (o, f) = append_parts-fails n ns d h in
      rw (append_parts-step n ns d o f) (
        extend n ns old d _ a apart c o f (λ b k.
          append_parts-Appends ns (old ++ b) (os.copy out (join dir n) d).0 apart k
            (rw (append_parts-step n ns d o f) at h)))

  -- the whole file, where the loop starts from an empty one
  abbrev pub IsJoined : List Str → D → D → Type 0
  IsJoined names d e = content out e ≡ joined content dir names d

  copy_parts-IsJoined :
      (names : List Str) (d : D)
      → Apart content dir out names
      → (copy_parts os dir names out d).1 ≡ none
      → IsJoined names d (copy_parts os dir names out d).0
  unfolding copy_parts Appends
  copy_parts-IsJoined names d apart h = elim (Option-cases (os.create out d).1) [
    | inr (e, f) ↦ absurd (cc (rw (f, copy_parts) at h))
    | inl f ↦
        let (b, j, c) =
          append_parts-Appends names [] (os.create out d).0 apart (laws.create_done out d f)
            (rw (f, copy_parts) at h) in
        let kept =
          joined-kept content dir out names d (os.create out d).0 apart
            (λ q k. laws.create_other out q d k) in
        rw (f, copy_parts) (c ∙ sym j ∙ kept)
  ]

  appended_nil : (o : Option Str) → o ≡ appended o (some [])
  appended_nil none = refl
  appended_nil (some b) = ap some (sym (append-nil b))

  concat_one-IsJoined :
      (n : Str) (d : D)
      → Apart content dir out (n ∷ [])
      → (concat_parts os dir (n ∷ []) out d).1 ≡ none
      → IsJoined (n ∷ []) d (concat_parts os dir (n ∷ []) out d).0
  unfolding concat_parts
  concat_one-IsJoined n d apart h = elim (Option-cases (os.rename (join dir n) out d).1) [
    | inl f ↦
        rw (f, concat_parts)
          (laws.rename_done (join dir n) out d f ∙ appended_nil (content (join dir n) d))
    | inr (e, f) ↦
        let copied =
          copy_parts-IsJoined (n ∷ []) (os.rename (join dir n) out d).0 apart
            (rw (f, concat_parts) at h) in
        let kept =
          joined-kept content dir out (n ∷ []) d (os.rename (join dir n) out d).0 apart
            (λ q _. laws.rename_failed (join dir n) out e d f q) in
        rw (f, concat_parts) (copied ∙ kept)
  ]

  pub concat_parts-IsJoined :
      (names : List Str) (d : D)
      → Apart content dir out names
      → (concat_parts os dir names out d).1 ≡ none
      → IsJoined names d (concat_parts os dir names out d).0
  unfolding concat_parts
  concat_parts-IsJoined [] d apart h = copy_parts-IsJoined [] d apart h
  concat_parts-IsJoined (n ∷ []) d apart h = concat_one-IsJoined n d apart h
  concat_parts-IsJoined (n ∷ m ∷ ns) d apart h = copy_parts-IsJoined (n ∷ m ∷ ns) d apart h
