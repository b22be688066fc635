-- ===== src/Tests/Sources.antt =====
-- A manager with two texts.
use recursive_functions.Prelude.{ℕ, ◌≡◌, refl, [], ◌∷◌, some}
use recursive_functions.Sources.Location.{SourceLocation, SourceRange}
use recursive_functions.Sources.View.{SourceView}
use recursive_functions.Sources.Manager.{SourceManager, get_range_view}

abbrev two_texts : SourceManager
two_texts = (97 ∷ 98 ∷ []) ∷ (99 ∷ 100 ∷ 101 ∷ []) ∷ []

abbrev at_position : ℕ → SourceLocation
at_position n = record { file_id = 1; pos_id = n }

abbrev last_two : SourceRange
last_two = record { begin = at_position 1; end = at_position 3 }

abbrev view_of_last_two : SourceView
view_of_last_two = record { text = 100 ∷ 101 ∷ []; begin = at_position 1 }

range_view : get_range_view two_texts last_two ≡ some view_of_last_two
unfolding get_range_view
range_view = refl
