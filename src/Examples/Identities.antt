-- ===== src/Examples/Identities.antt =====
-- Maps of two rows.
use mesa_e2e_certification.Prelude.{
  insert, String, ◌==◌, ◌≡◌, ◌⊎◌, refl, true, some, List, [], ◌∷◌, elem, lookup, if◌then◌else◌,
  insert,
}
use mesa_e2e_certification.Identity.{
  load_row, load_lines, load_map, IdentityMap, ok, RowSource, empty_map, enter_row, plain_row,
  add_mapping, resolve_source_chunk_id, resolve_mesa_chunk_ids, load_from_file,
}
use mesa_e2e_certification.Identity.Consistent.{
  IsConsistent, empty-IsConsistent, add_mapping_outcome, add_mapping-IsConsistent,
}
use mesa_e2e_certification.Identity.Loading.{IsRead, load_outcome}
use mesa_e2e_certification.Identity.Resolving.{add_all, resolve_round_trip}

abbrev one_row : IdentityMap
one_row = (add_mapping empty_map "mesa-1" "source-1").0

abbrev two_rows : IdentityMap
two_rows = (add_mapping one_row "mesa-2" "source-1").0

two_rows-IsConsistent : IsConsistent two_rows
two_rows-IsConsistent =
    add_mapping-IsConsistent one_row "mesa-2" "source-1"
      (add_mapping-IsConsistent empty_map "mesa-1" "source-1" empty-IsConsistent)

add_mapping_outcome_example :
    lookup "mesa-1" one_row.mesa_to_source
    ≡ (if "mesa-1" == "mesa-1" then some "source-1" else lookup "mesa-1" empty_map.mesa_to_source)
unfolding add_mapping lookup
add_mapping_outcome_example = (add_mapping_outcome empty_map "mesa-1" "source-1").1 refl "mesa-1"

add_mapping-IsConsistent_example : IsConsistent one_row
add_mapping-IsConsistent_example =
    add_mapping-IsConsistent empty_map "mesa-1" "source-1" empty-IsConsistent

abbrev pairs : List (String × String)
pairs = ("mesa-1", "source-1") ∷ ("mesa-1", "source-2") ∷ ("mesa-2", "source-1") ∷ []

resolve_round_trip_example :
    (ids : List String) × (resolve_mesa_chunk_ids (add_all pairs empty_map) "source-1" ≡ ok ids)
    × ((elem "mesa-2" ids ≡ true) ⊎ (◌≡◌ {A = String} "mesa-2" "source-1"))
unfolding add_all add_mapping resolve_source_chunk_id lookup enter_row insert
resolve_round_trip_example = (resolve_round_trip pairs "mesa-2" "source-1").0 refl

-- The texts of this file are its lines, and a line is the MESA ID of its row.
abbrev source : RowSource
source = record {
  Bytes = String;
  sha256 = λ t. t;
  decode = λ t. some t;
  splitlines = λ t. t ∷ "" ∷ "mesa-2" ∷ [];
  is_blank = λ t. t == "";
  parse_row = λ t. some (plain_row t "source-1");
}

load_outcome_example :
    (bytes : String) × (text : String) × (some "mesa-1" ≡ some bytes)
    × IsRead source bytes
        (some "mesa-1")
        text
        (load_from_file source empty_map (some "mesa-1") (some "mesa-1")).0
unfolding load_from_file load_map load_lines load_row lookup enter_row insert
load_outcome_example = (load_outcome source empty_map (some "mesa-1") (some "mesa-1")).0 refl
