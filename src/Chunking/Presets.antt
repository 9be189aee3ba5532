-- ===== src/Chunking/Presets.antt =====
-- ingestion/svo_chunking.py: the presets that a service's catalogue names.
use vvz_doc_store.Prelude.{
  Bool, true, false, ◌||◌, Option, none, some, List, [], ◌∷◌, ◌++◌, if◌then◌else◌,
}
use vvz_doc_store.Text.{Text, text_eq}
use vvz_doc_store.Text.Words.{is_empty, strip}
use vvz_doc_store.Chunking.Wrapper.{codes}

-- What a catalogue is made of: a list stands for Python's lists, tuples and sets.
mutual
  pub data Value : Type 0 where
    text_value : Text → Value
    listed : Values → Value
    mapping : Entries → Value
    other_value : Value

  pub data Values : Type 0 where
    no_values : Values
    value : Value → Values → Values

  pub data Entries : Type 0 where
    no_entries : Entries
    entry : Text → Value → Entries → Entries

abbrev pub contains_text : Text → List Text → Bool
contains_text text [] = false
contains_text text (other ∷ others) = text_eq text other || contains_text text others

-- The catalogue's keys, lower-cased and with underscores.
unfoldable pub is_catalogue_key : Text → Bool
is_catalogue_key key = contains_text key (
    codes "chunk_sets"
    ∷ codes "chunk_presets"
    ∷ codes "presets"
    ∷ codes "supported_presets"
    ∷ codes "supported_chunk_sets"
    ∷ [])

abbrev unless_blank : Text → List Text → List Text
unless_blank text texts = if is_empty (strip text) then texts else text ∷ texts

listed_texts : Values → List Text
listed_texts no_values = []
listed_texts (value (text_value text) values) = unless_blank text (listed_texts values)
listed_texts (value _ values) = listed_texts values

entry_keys : Entries → List Text
entry_keys no_entries = []
entry_keys (entry key item entries) = unless_blank key (entry_keys entries)

unfoldable pub preset_values : Value → List Text
unfolding listed_texts entry_keys
preset_values (mapping entries) = entry_keys entries
preset_values (listed values) = listed_texts values
preset_values _ = []

-- `str(key).lower().replace("-", "_")` is a parameter.
module _ (normalized : Text → Text) where
  unfoldable mutual
    unfolding preset_values is_catalogue_key

    pub extract_presets : Value → List Text
    extract_presets (mapping entries) = extract_entries entries
    extract_presets (listed values) = preset_values (listed values)
    extract_presets (text_value text) = []
    extract_presets other_value = []

    pub extract_entries : Entries → List Text
    extract_entries no_entries = []
    extract_entries (entry key item entries) =
        let inner = extract_presets item in
        (if is_catalogue_key (normalized key) then preset_values item else inner)
        ++ extract_entries entries

  abbrev pub no_texts : List Text → Bool
  no_texts [] = true
  no_texts (text ∷ texts) = false

  -- The methods of the client in their order, with what each returns if the client has it: the first catalogue
  -- that names a preset.
  unfoldable pub query_supported_presets : List (Option Value) → Option (List Text)
  unfolding extract_presets
  query_supported_presets [] = none
  query_supported_presets (none ∷ methods) = query_supported_presets methods
  query_supported_presets (some found ∷ methods) =
      let presets = extract_presets found in
      let others = query_supported_presets methods in
      if no_texts presets then others else some presets
