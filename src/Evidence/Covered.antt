-- ===== src/Evidence/Covered.antt =====
-- What a passing check says of every run id that a structured artifact names.
use mesa_e2e_certification.Prelude.{
  Bool, Bool-cases, Dict, List, Member, Option, Option-cases, String, [], any, ap, arith, collect,
  eq_iff, false, filter, inl, inr, is_empty, is_empty-filter, lookup, none, refl, some, subst, suc,
  true, ℕ, ◌&&◌, ◌++◌, ◌<>◌, ◌==◌, ◌||◌, ◌∙◌, ◌∷◌, ◌≡◌, ◌⊎◌,
}
use mesa_e2e_certification.Json.{Json, Items, Fields, elements, get}
use mesa_e2e_certification.Evidence.{
  Authorization, File, Note, Reading, Texts, by_path, default_patterns, is_covered, is_field,
  is_jsonl, is_mismatch, item_ids, metadata_id, not_null, note_content, note_lack, note_line,
  note_lines, note_metadata, note_observed, note_parsed, note_reading, note_record, note_value,
  observed_run_ids, record_id, record_mismatch, str, validate_run_id_consistency,
}
use mesa_e2e_certification.Evidence.Last.{IsLast, by_path→}

module _ {A : Type 0} (p : A → Bool) where
  any-append : (xs ys : List A) → any p (xs ++ ys) ≡ (any p xs || any p ys)
  any-append [] ys = refl
  any-append (x ∷ xs) ys = ground (arith, any-append xs ys)

  none_left : (xs ys : List A) → any p (xs ++ ys) ≡ false → any p xs ≡ false
  none_left xs ys h = ground (arith, any-append xs ys)

  none_right : (xs ys : List A) → any p (xs ++ ys) ≡ false → any p ys ≡ false
  none_right xs ys h = ground (arith, any-append xs ys)

  none_collect :
      {B : Type 0} (f : B → List A) (xs : List B) (x : B)
      → Member x xs
      → any p (collect f xs) ≡ false
      → any p (f x) ≡ false
  none_collect f [] x m h = absurd (m tt)
  none_collect f (y ∷ ys) x (inl e) h =
      subst (λ z. any p (f z) ≡ false) e (none_left (f y) (collect f ys) h)
  none_collect f (y ∷ ys) x (inr m) h = none_collect f ys x m (none_right (f y) (collect f ys) h)

Member-collect :
    {A B : Type 0} (f : A → List B) (xs : List A) (x : A) (y : B)
    → Member x xs
    → f x ≡ y ∷ []
    → Member y (collect f xs)
Member-collect f [] x y m h = absurd (m tt)
Member-collect f (z ∷ zs) x y (inl e) h = rw (ap f e ∙ h) (inl refl)
Member-collect f (z ∷ zs) x y (inr m) h = later (f z) (Member-collect f zs x y m h)
  where
    later : (before : List _) → Member y (collect f zs) → Member y (before ++ collect f zs)
    later [] there = there
    later (b ∷ before) there = inr (later before there)

module _ (texts : Texts) where
  -- The ways in which a file names a run id: as the payload's, as an item's of a list, or as a
  -- record's of a line.
  pub data Names (file : File) (observed : String) : Type 0 where
    in_payload :
        (text : String) (fs : Fields) (v : Json)
        → file.reading ≡ Reading.content text
        → is_jsonl texts file.name ≡ false
        → texts.loads text ≡ some (Json.object fs)
        → (not_null (get "run_id" fs) ≡ some v) ⊎ (metadata_id fs ≡ some v)
        → str texts v ≡ observed
        → Names file observed
    in_item :
        (text : String) (xs : Items) (fs : Fields) (v : Json)
        → file.reading ≡ Reading.content text
        → is_jsonl texts file.name ≡ false
        → texts.loads text ≡ some (Json.array xs)
        → Member (Json.object fs) (elements xs)
        → not_null (get "run_id" fs) ≡ some v
        → str texts v ≡ observed
        → Names file observed
    in_line :
        (text line : String) (fs : Fields) (v : Json)
        → file.reading ≡ Reading.content text
        → is_jsonl texts file.name ≡ true
        → Member line (texts.splitlines text)
        → (texts.strip line == "") ≡ false
        → texts.loads (texts.strip line) ≡ some (Json.object fs)
        → (record_id texts fs ≡ some v) ⊎ (metadata_id fs ≡ some v)
        → str texts v ≡ observed
        → Names file observed

  -- An authorization of this file, with its content as it is and the run that it names.
  record IsCovered (file : File) (observed : String) (a : Option Authorization) : Type 0 where
    pub authorization : Authorization
    pub there : a ≡ some authorization
    pub source_run : lookup "source_run_id" authorization ≡ some observed
    pub same_content : lookup "expected_sha256" authorization ≡ some file.sha256

  is_field→ : (o : Option String) (t : String) → is_field o t ≡ true → o ≡ some t
  is_field→ none t h = absurd (ground arith)
  is_field→ (some s) t h = ap some ((eq_iff s t).0 h)

  module _ (run_id : String) (authorizations : Dict Authorization) (patterns : List String)
      (file : File) where
    record_mismatch→ :
        (observed subpath : String)
        → any is_mismatch
            (record_mismatch texts run_id authorizations patterns file observed subpath)
          ≡ false
        → IsCovered file observed (lookup file.relative authorizations)
    unfolding record_mismatch is_covered
    record_mismatch→ observed subpath h =
        elim (Option-cases (lookup file.relative authorizations)) [
          | inl absent ↦ absurd (ground arith)
          | inr (a, there) ↦ elim (Bool-cases (is_covered texts file observed (some a))) [
            | inr open_one ↦ absurd (ground arith)
            | inl covered ↦ record {
              authorization = a;
              there = there;
              source_run = is_field→ (lookup "source_run_id" a) observed (ground arith);
              same_content = is_field→ (lookup "expected_sha256" a) file.sha256 (ground arith);
            }
          ]
        ]

    note_value→ :
        (subpath observed : String)
        → (observed == run_id) ≡ false
        → any is_mismatch (note_value texts run_id authorizations patterns file subpath observed)
          ≡ false
        → IsCovered file observed (lookup file.relative authorizations)
    note_value→ subpath observed differs h = record_mismatch→ observed subpath (rw differs at h)

    note_observed→ :
        (os : List String) (o : String)
        → Member o os
        → (o == run_id) ≡ false
        → any is_mismatch (note_observed texts run_id authorizations patterns file os) ≡ false
        → IsCovered file o (lookup file.relative authorizations)
    note_observed→ [] o m differs h = absurd (m tt)
    note_observed→ (p ∷ ps) o m differs h = note_value→ file.relative o differs (
        none_collect is_mismatch
          (note_value texts run_id authorizations patterns file file.relative) (p ∷ ps) o m h)

    note_parsed→ :
        (place : String) (fs : Fields) (v : Json)
        → (record_id texts fs ≡ some v) ⊎ (metadata_id fs ≡ some v)
        → (str texts v == run_id) ≡ false
        → any is_mismatch
            (note_parsed texts run_id authorizations patterns file place (some (Json.object fs)))
          ≡ false
        → IsCovered file (str texts v) (lookup file.relative authorizations)
    note_parsed→ place fs v (inl e) differs h = note_value→ place (str texts v) differs (
        subst
          (λ o.
            any is_mismatch (note_record texts run_id authorizations patterns file place o) ≡ false)
          e
          (none_left is_mismatch
            (note_record texts run_id authorizations patterns file place (record_id texts fs))
            (note_metadata texts run_id authorizations patterns file place (metadata_id fs)) h))
    note_parsed→ place fs v (inr e) differs h =
        note_value→ (place <> ".metadata") (str texts v) differs (
          subst
            (λ o.
              any is_mismatch (note_metadata texts run_id authorizations patterns file place o)
              ≡ false)
            e
            (none_right is_mismatch
              (note_record texts run_id authorizations patterns file place (record_id texts fs))
              (note_metadata texts run_id authorizations patterns file place (metadata_id fs)) h))

    note_line→ :
        (n : ℕ) (line : String) (fs : Fields) (v : Json)
        → (texts.strip line == "") ≡ false
        → texts.loads (texts.strip line) ≡ some (Json.object fs)
        → (record_id texts fs ≡ some v) ⊎ (metadata_id fs ≡ some v)
        → (str texts v == run_id) ≡ false
        → any is_mismatch (note_line texts run_id authorizations patterns file n line) ≡ false
        → IsCovered file (str texts v) (lookup file.relative authorizations)
    unfolding note_line
    note_line→ n line fs v full parsed which differs h =
        note_parsed→ (file.relative <> ":" <> texts.decimal n) fs v which differs
          (rw (full, parsed) at h)

    note_lines→ :
        (lines : List String) (n : ℕ) (line : String) (fs : Fields) (v : Json)
        → Member line lines
        → (texts.strip line == "") ≡ false
        → texts.loads (texts.strip line) ≡ some (Json.object fs)
        → (record_id texts fs ≡ some v) ⊎ (metadata_id fs ≡ some v)
        → (str texts v == run_id) ≡ false
        → any is_mismatch (note_lines texts run_id authorizations patterns file lines n) ≡ false
        → IsCovered file (str texts v) (lookup file.relative authorizations)
    unfolding note_lines
    note_lines→ [] n line fs v m full parsed which differs h = absurd (m tt)
    note_lines→ (l ∷ ls) n line fs v (inl e) full parsed which differs h =
        note_line→ n line fs v full parsed which differs (
          subst
            (λ z. any is_mismatch (note_line texts run_id authorizations patterns file n z) ≡ false)
            e
            (none_left is_mismatch (note_line texts run_id authorizations patterns file n l)
              (note_lines texts run_id authorizations patterns file ls (suc n)) h))
    note_lines→ (l ∷ ls) n line fs v (inr m) full parsed which differs h =
        note_lines→ ls (suc n) line fs v m full parsed which differs (
          none_right is_mismatch (note_line texts run_id authorizations patterns file n l)
            (note_lines texts run_id authorizations patterns file ls (suc n)) h)

    payload_ids :
        (fs : Fields) (v : Json)
        → (not_null (get "run_id" fs) ≡ some v) ⊎ (metadata_id fs ≡ some v)
        → Member
            (str texts v)
            (observed_run_ids texts run_id authorizations patterns file (Json.object fs))
    unfolding observed_run_ids
    payload_ids fs v (inl e) = rw e (inl refl)
    payload_ids fs v (inr e) = elim (Option-cases (not_null (get "run_id" fs))) [
      | inl none_there ↦ rw (none_there, e) (inl refl)
      | inr (w, there) ↦ rw (there, e) (inr (inl refl))
    ]

    item_ids_there :
        (xs : Items) (fs : Fields) (v : Json)
        → Member (Json.object fs) (elements xs)
        → not_null (get "run_id" fs) ≡ some v
        → Member
            (str texts v)
            (observed_run_ids texts run_id authorizations patterns file (Json.array xs))
    unfolding observed_run_ids
    item_ids_there xs fs v m e =
        Member-collect (item_ids texts run_id authorizations patterns file) (elements xs)
          (Json.object fs) (str texts v) m (rw (e, item_ids))

    note_content→ :
        (text observed : String)
        → any is_mismatch (note_content texts run_id authorizations patterns file text) ≡ false
        → is_jsonl texts file.name ≡ false
        → (payload : Json) → texts.loads text ≡ some payload
        → Member observed (observed_run_ids texts run_id authorizations patterns file payload)
        → (observed == run_id) ≡ false
        → IsCovered file observed (lookup file.relative authorizations)
    unfolding note_content
    note_content→ text observed h json payload parsed m differs =
        note_observed→ (observed_run_ids texts run_id authorizations patterns file payload) observed
          m differs (rw (json, parsed) at h)

    content→ :
        (text : String)
        → file.reading ≡ Reading.content text
        → any is_mismatch (note_reading texts run_id authorizations patterns file file.reading)
          ≡ false
        → any is_mismatch (note_content texts run_id authorizations patterns file text) ≡ false
    unfolding note_reading
    content→ text read h =
        subst
          (λ r. any is_mismatch (note_reading texts run_id authorizations patterns file r) ≡ false)
          read h

    names→ :
        (observed : String)
        → Names file observed
        → (observed == run_id) ≡ false
        → any is_mismatch (note_reading texts run_id authorizations patterns file file.reading)
          ≡ false
        → IsCovered file observed (lookup file.relative authorizations)
    unfolding note_content
    names→ observed (in_payload text fs v read json parsed which e) differs h =
        note_content→ text observed (content→ text read h) json (Json.object fs) parsed
          (subst
            (λ o.
              Member o
                (observed_run_ids texts run_id authorizations patterns file (Json.object fs)))
            e (payload_ids fs v which))
          differs
    names→ observed (in_item text xs fs v read json parsed m at_item e) differs h =
        note_content→ text observed (content→ text read h) json (Json.array xs) parsed
          (subst
            (λ o.
              Member o (observed_run_ids texts run_id authorizations patterns file (Json.array xs)))
            e (item_ids_there xs fs v m at_item))
          differs
    names→ observed (in_line text line fs v read jsonl m full parsed which e) differs h =
        subst (λ o. IsCovered file o (lookup file.relative authorizations)) e
          (note_lines→ (texts.splitlines text) 1 line fs v m full parsed which (rw e differs) (
            none_left is_mismatch
              (note_lines texts run_id authorizations patterns file (texts.splitlines text) 1)
              (note_lack texts run_id authorizations patterns file (texts.splitlines text))
              (rw (jsonl, note_content) at content→ text read h)))

  -- The last complete authorization of the file's path is for its content as it is and names this
  -- run as its source.
  pub record IsReused (file : File) (observed : String) (authorizations : List Authorization)
      : Type 0 where
    pub authorization : Authorization
    pub is_last : IsLast file.relative authorizations authorization
    pub source_run : lookup "source_run_id" authorization ≡ some observed
    pub same_content : lookup "expected_sha256" authorization ≡ some file.sha256

  -- Where the check passes, a run id that a structured artifact names and that is not the run's is
  -- the source run of an authorization, the last complete one of the artifact's path, and that
  -- authorization is for the artifact's content as it is.
  pub passing-IsReused :
      (run_id : String) (files : List File) (authorizations : List Authorization)
      (allowed : List String) (file : File) (observed : String)
      → (validate_run_id_consistency texts run_id files authorizations allowed).passes ≡ true
      → Member file files
      → Names file observed
      → (observed == run_id) ≡ false
      → IsReused file observed authorizations
  unfolding validate_run_id_consistency lookup
  passing-IsReused run_id files authorizations allowed file observed h m names differs =
      let note = λ (f : File).
        note_reading texts run_id (by_path authorizations []) (default_patterns ++ allowed) f
          f.reading in
      let covered =
        names→ run_id (by_path authorizations []) (default_patterns ++ allowed) file observed names
          differs
          (none_collect is_mismatch note files file m (flawless (collect note files) _ _ h)) in
      elim (by_path→ authorizations [] file.relative covered.authorization covered.there) [
        | inl is_last ↦ record {
          authorization = covered.authorization;
          is_last = is_last;
          source_run = covered.source_run;
          same_content = covered.same_content;
        }
        | inr (none_there, there) ↦ absurd (absent covered.authorization there)
      ]
    where
      flawless :
          (notes : List Note) (b c : Bool)
          → (is_empty (filter is_mismatch notes) && b && c) ≡ true
          → any is_mismatch notes ≡ false
      flawless notes b c h = ground (arith, is_empty-filter is_mismatch notes)

      absent : (a : Authorization) → none ≡ some a → ⊥
      absent a e = cc
