-- ===== src/Sources/Manager.antt =====
-- src/sources/SourceManager.cpp: the texts that are loaded, and the views of them. A loaded file is the
-- list of its bytes, and its number is its position. `none` is the exception of the source.
use recursive_functions.Prelude.{
  ℕ, inl, inr, subst, zero, suc, ◌+◌, ◌-◌, ◌^◌, ◌<◌, ◌≡◌, refl, ap, ◌∙◌, false, ◌||◌, not, List, [],
  ◌∷◌, ◌++◌, Option, none, some, arith, ◌==◌, ltb, if◌then◌else◌, length, get_elem?,
  get_elem?-append_left, get_elem?-append_at, Option-cases, Bool-cases,
}
use recursive_functions.Sources.Location.{SourceLocation, SourceRange, u32, advance}
use recursive_functions.Sources.View.{SourceView, get_offset, at_unchecked}

abbrev pub SourceManager : Type 0
SourceManager = List (List ℕ)

-- `remove_prefix`, and the first n bytes.
abbrev pub drop : ℕ → List ℕ → List ℕ
drop zero text = text
drop (suc n) [] = []
drop (suc n) (c ∷ text) = drop n text

abbrev pub take : ℕ → List ℕ → List ℕ
take zero text = []
take (suc n) [] = []
take (suc n) (c ∷ text) = c ∷ take n text

-- `get_file_view` of a location: from there to the end of the file.
unfoldable pub get_file_view : SourceManager → SourceLocation → Option SourceView
get_file_view loaded location = elim (get_elem? loaded location.file_id) [
  | none ↦ none
  | some text ↦
      if ltb (length text) location.pos_id
      then none
      else some (record { text = drop location.pos_id text; begin = location })
]

-- `get_file_view` of a range.
unfoldable pub get_range_view : SourceManager → SourceRange → Option SourceView
get_range_view loaded range =
    if ltb range.end.pos_id range.begin.pos_id || not (range.begin.file_id == range.end.file_id)
    then none
    else (elim (get_elem? loaded range.begin.file_id) [
      | none ↦ none
      | some text ↦
          if ltb (length text) range.end.pos_id
          then none
          else some (record {
            text = take (range.end.pos_id - range.begin.pos_id) (drop range.begin.pos_id text);
            begin = range.begin;
          })
    ])

-- The view of the new text, and the manager with it. A file number is a `uint32_t`.
unfoldable pub load_text : SourceManager → List ℕ → Option (SourceView × SourceManager)
unfolding get_file_view
load_text loaded text =
    elim (get_file_view (loaded ++ text ∷ [])
      (record { file_id = u32 (length loaded); pos_id = 0 })) [
        | none ↦ none
        | some view ↦ some (view, loaded ++ text ∷ [])
      ]

some_inj {ℓ} : {A : Type ℓ} {x y : A} → some x ≡ some y → x ≡ y
some_inj h = cc

at : (text : List ℕ) (i j : ℕ) → i ≡ j → get_elem? text i ≡ get_elem? text j
at text i j e = ap (get_elem? text) e

get_elem?-drop : (n k : ℕ) (text : List ℕ) → get_elem? (drop n text) k ≡ get_elem? text (n + k)
get_elem?-drop zero k text = at text k (0 + k) (omega arith)
get_elem?-drop (suc n) k [] = refl
get_elem?-drop (suc n) k (c ∷ text) =
    get_elem?-drop n k text ∙ at (c ∷ text) (suc (n + k)) (suc n + k) (omega arith)

get_elem?-take : (n k : ℕ) (text : List ℕ) → k < n → get_elem? (take n text) k ≡ get_elem? text k
get_elem?-take zero k text h = absurd (omega arith)
get_elem?-take (suc n) k [] h = refl
get_elem?-take (suc n) zero (c ∷ text) h = refl
get_elem?-take (suc n) (suc k) (c ∷ text) h = get_elem?-take n k text (omega arith)

get_file_view-snoc :
    (loaded : SourceManager) (text : List ℕ) (location : SourceLocation) (old : SourceView)
    → get_file_view loaded location ≡ some old
    → get_file_view (loaded ++ text ∷ []) location ≡ some old
unfolding get_file_view
get_file_view-snoc loaded text location old h =
    elim (Option-cases (get_elem? loaded location.file_id)) [
      | inl none_ ↦ let h' = rw (get_file_view, none_) at h in absurd (cc)
      | inr (file, found) ↦
          let h' = rw (get_file_view, found) at h in
          rw (get_file_view, get_elem?-append_left loaded (text ∷ []) location.file_id found) h'
    ]

-- Loading a text succeeds while there are fewer than 2 ^ 32 files: the view is the whole text from the
-- position 0 of a new file, and every view of the files of before stays as it was.
pub load_text-get_file_view :
    (loaded : SourceManager) (text : List ℕ)
    → length loaded < 2 ^ 32
    → (view : SourceView) × (load_text loaded text ≡ some (view, loaded ++ text ∷ []))
      × (view.text ≡ text)
      × (view.begin ≡ record { file_id = length loaded; pos_id = 0 })
      × ((location : SourceLocation) (old : SourceView)
          → get_file_view loaded location ≡ some old
          → get_file_view (loaded ++ text ∷ []) location ≡ some old)
unfolding load_text
load_text-get_file_view loaded text h =
    let number : u32 (length loaded) ≡ length loaded = omega arith in
    let never : ltb (length text) 0 ≡ false = ground arith in
    let view : SourceView = record {
      text = text;
      begin = record { file_id = length loaded; pos_id = 0 };
    } in
    let made : get_file_view (loaded ++ text ∷ [])
          (record { file_id = u32 (length loaded); pos_id = 0 })
        ≡ some view =
      rw number
        (rw (get_file_view, get_elem?-append_at loaded text (length loaded) refl) (rw never)) in
    (view, rw (load_text, made), refl, refl, get_file_view-snoc loaded text)

sub_view :
    (text part : List ℕ) (begin : SourceLocation) (stop k : ℕ)
    → part ≡ take (stop - begin.pos_id) (drop begin.pos_id text)
    → begin.pos_id + k < stop
    → stop < 2 ^ 32
    → at_unchecked (record { text = part; begin = begin }) (advance begin k)
      ≡ get_elem? text (begin.pos_id + k)
unfolding at_unchecked
sub_view text part begin stop k e inside small =
    let offset : get_offset (record { text = part; begin = begin }) (advance begin k) ≡ k =
      omega arith in
    ap (get_elem? part) offset
    ∙ ap (λ t. get_elem? t k) e
    ∙ get_elem?-take (stop - begin.pos_id) k (drop begin.pos_id text) (omega arith)
    ∙ get_elem?-drop begin.pos_id k text

-- In the view of a range, the position k behind its begin is that of the file, for every k inside of
-- the range.
pub get_range_view-at_unchecked :
    (loaded : SourceManager) (range : SourceRange) (text : List ℕ) (k : ℕ) {view : SourceView}
    → get_range_view loaded range ≡ some view
    → get_elem? loaded range.begin.file_id ≡ some text
    → range.begin.pos_id + k < range.end.pos_id
    → range.end.pos_id < 2 ^ 32
    → at_unchecked view (advance range.begin k) ≡ get_elem? text (range.begin.pos_id + k)
unfolding get_range_view at_unchecked
get_range_view-at_unchecked loaded range text k {view} h e inside small =
    elim (Bool-cases
      (ltb range.end.pos_id range.begin.pos_id || not (range.begin.file_id == range.end.file_id))) [
        | inl bad ↦ let h' = rw (get_range_view, bad) at h in absurd (cc)
        | inr good ↦ (elim (Bool-cases (ltb (length text) range.end.pos_id)) [
          | inl long ↦ let h' = rw (get_range_view, good, e, long) at h in absurd (cc)
          | inr fits ↦
              let h' = rw (get_range_view, good, e, fits) at h in
              subst
                (λ v.
                  at_unchecked v (advance range.begin k) ≡ get_elem? text (range.begin.pos_id + k))
                (some_inj h') (sub_view text _ range.begin range.end.pos_id k refl inside small)
        ])
      ]
