-- ===== src/Streaming/Generator/Whole.antt =====
-- A whole generation: from the run of ffmpeg to the bytes of the segment.
use vaultflix.Base.{
  Str, codes, has_prefix, false, Option, none, List, [], ◌∷◌, ◌++◌, ◌≡◌, ◌≢◌, inl, inr, refl, arith,
  ◌∙◌, ap, length, length-append, append_assoc, Option-cases, ℕ,
}
use vaultflix.Base.Int.{ℤ, ◌+ℤ◌}
use vaultflix.Errors.{Result, ok, Result-cases}
use vaultflix.Paths.{join}
use vaultflix.Streaming.Generator.{
  Os, concat_parts, generate_in, generate, segment_list_name, build_segment_args,
  parse_segment_list, select_parts_from_list,
}
use vaultflix.Streaming.Generator.Joined.{IsOs, joined, Apart, concat_parts-IsJoined}

abbrev pub parts_of : Str → Str
parts_of out = out ++ codes ".parts"

has_prefix-longer : (s t : Str) (c : ℕ) → has_prefix (s ++ c ∷ t) s ≡ false
unfolding has_prefix
has_prefix-longer [] t c = refl
has_prefix-longer (x ∷ s) t c = ground (arith, has_prefix-longer s t c)

module _ {D : Type 0} {os : Os D} {content : Str → D → Option Str} (laws : IsOs os content)
    (input out : Str) (start duration : ℤ) where
  -- ffmpeg's list, in the state that its run leaves
  abbrev pub list_in : D → Result Str
  list_in ran = os.read_file (join (parts_of out) segment_list_name) ran

  abbrev selected : Str → Result (List Str)
  selected list = select_parts_from_list (parse_segment_list list) start (start +ℤ duration)

  -- the state that ffmpeg leaves
  abbrev ran_from : D → D
  ran_from d = (os.run_ffmpeg (build_segment_args input (parts_of out) start duration) d).0

  -- how a run that succeeds went
  record WentWell (d : D) : Type 0 where
    pub list : Str
    pub names : List Str
    pub listed : list_in (ran_from d) ≡ ok list
    pub picked : selected list ≡ ok names
    pub done : (concat_parts os (parts_of out) names out (ran_from d)).1 ≡ none
    pub left :
        (generate_in os (parts_of out) input out start duration d).0
        ≡ (concat_parts os (parts_of out) names out (ran_from d)).0

  generate_in-WentWell :
      (d : D) → (generate_in os (parts_of out) input out start duration d).1 ≡ none → WentWell d
  unfolding generate_in
  generate_in-WentWell d h =
      elim (Option-cases
        (os.run_ffmpeg (build_segment_args input (parts_of out) start duration) d).1) [
          | inr (e, f) ↦ absurd (cc (rw (f, generate_in) at h))
          | inl f ↦ elim (Result-cases (list_in (ran_from d))) [
            | inl (e, l) ↦ absurd (cc (rw (f, l, generate_in) at h))
            | inr (list, l) ↦ elim (Result-cases (selected list)) [
              | inl (e, s) ↦ absurd (cc (rw (f, l, s, generate_in) at h))
              | inr (names, s) ↦
                  elim (Option-cases (concat_parts os (parts_of out) names out (ran_from d)).1) [
                    | inr (e, c) ↦ absurd (cc (rw (f, l, s, c, generate_in) at h))
                    | inl c ↦ record {
                      list = list;
                      names = names;
                      listed = l;
                      picked = s;
                      done = c;
                      left = rw (f, l, s, generate_in) refl;
                    }
                  ]
            ]
          ]
        ]

  outside : out ≢ parts_of out
  outside e = omega (arith, ap length e, length-append out (codes ".parts"))

  not_below : has_prefix (parts_of out ++ codes "/") out ≡ false
  not_below =
      rw (append_assoc out (codes ".parts") (codes "/"))
        (has_prefix-longer out (codes "parts/") b'.')

  -- what is in the segment's file at the end
  pub record IsCut (d : D) : Type 0 where
    pub list : Str
    pub names : List Str
    pub listed : list_in (ran_from (os.mkdir_all (parts_of out) d).0) ≡ ok list
    pub picked : selected list ≡ ok names
    pub bytes :
        content out (generate os input out start duration d).0
        ≡ joined content (parts_of out) names (ran_from (os.mkdir_all (parts_of out) d).0)

  generate-made :
      (d : D)
      → (generate os input out start duration d).1 ≡ none
      → (os.mkdir_all (parts_of out) d).1 ≡ none
  unfolding generate
  generate-made d h = elim (Option-cases (os.mkdir_all (parts_of out) d).1) [
    | inl f ↦ f
    | inr (e, f) ↦ absurd (cc (rw (f, generate) at h))
  ]

  generate-removes :
      (d : D)
      → (os.mkdir_all (parts_of out) d).1 ≡ none
      → generate os input out start duration d ≡ (
        (os.remove_all
            (parts_of out)
            (generate_in os
              (parts_of out)
              input
              out
              start
              duration
              (os.mkdir_all (parts_of out) d).0).0).0,
        (generate_in os
            (parts_of out)
            input
            out
            start
            duration
            (os.mkdir_all (parts_of out) d).0).1,
      )
  unfolding generate
  generate-removes d f = rw (f, generate) refl

  -- A generation that succeeds leaves in the segment's file the bytes of the parts that the
  -- selection takes from ffmpeg's list, one after the other and as ffmpeg wrote them, and its
  -- removal of the parts does not touch them. No part that is taken may be the segment's file.
  pub generate-IsCut :
      (d : D)
      → ((list : Str) (names : List Str)
          → list_in (ran_from (os.mkdir_all (parts_of out) d).0) ≡ ok list
          → selected list ≡ ok names
          → Apart content (parts_of out) out names)
      → (generate os input out start duration d).1 ≡ none
      → IsCut d
  generate-IsCut d apart h =
      let made = generate-made d h in
      let removed = generate-removes d made in
      let went = generate_in-WentWell (os.mkdir_all (parts_of out) d).0 (rw removed at h) in
      let joined_ =
        concat_parts-IsJoined laws (parts_of out) out went.names
          (ran_from (os.mkdir_all (parts_of out) d).0)
          (apart went.list went.names went.listed went.picked) went.done in
      record {
        list = went.list;
        names = went.names;
        listed = went.listed;
        picked = went.picked;
        bytes = rw removed (
            laws.remove_keeps (parts_of out) out _ outside not_below
            ∙ ap (content out) went.left
            ∙ joined_);
      }
