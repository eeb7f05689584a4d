-- ===== src/Rule/FactBase.antt =====
-- include/sai/rule/fact_base.h and src/rule/fact_base.cpp: facts with their sources, and the mapping
-- of graph paths to keys. `elapsed` is in microseconds.
use surface_ai.Base.{ℕ, ◌≡◌, Bool, Option, none, some, List, map, if◌then◌else◌, has_value, arith}
use surface_ai.Base.Text.{Text, text, text_eq}
use surface_ai.Base.Dict.{Dict, find, insert_or_assign, emplace, find-insert}
use surface_ai.Rule.Value.{Value}

pub data FactSourceKind : Type 0 where
  direct graph_path vector_search computed default : FactSourceKind

pub record FactSource : Type 0 where
  pub kind : FactSourceKind
  pub description : Text
  pub elapsed : ℕ
  pub sql : Option Text
  pub top_k : Option ℕ

abbrev pub source_of_kind : FactSourceKind → Text → FactSource
source_of_kind k desc = record {
  kind = k;
  description = desc;
  elapsed = 0;
  sql = none;
  top_k = none;
}

pub record Entry (D : Type 0) : Type 0 where
  pub value : Value D
  pub source : FactSource

pub record FactBase (D : Type 0) : Type 0 where
  pub entries : Dict (Entry D)
  pub path_mappings : Dict Text

module _ {D : Type 0} where
  unfoldable pub set : Text → Value D → FactSource → FactBase D → FactBase D
  set key v src fb = record fb {
    entries = insert_or_assign key (record { value = v; source = src }) fb.entries;
  }

  unfoldable pub set_default : Text → Value D → FactBase D → FactBase D
  set_default key v fb = elim (find key fb.entries) [
    | none ↦ record fb {
      entries =
          emplace key
            (record { value = v; source = source_of_kind FactSourceKind.default (text "") })
            fb.entries;
    }
    | some e ↦ fb
  ]

  unfoldable pub get : Text → FactBase D → Option (Value D)
  get key fb = elim (find key fb.entries) [ none ↦ none | some e ↦ some e.value ]

  unfoldable pub get_or : Text → Value D → FactBase D → Value D
  get_or key default_val fb = elim (find key fb.entries) [ none ↦ default_val | some e ↦ e.value ]

  unfoldable pub has : Text → FactBase D → Bool
  has key fb = has_value (find key fb.entries)

  unfoldable pub add_path_mapping : Text → Text → FactBase D → FactBase D
  add_path_mapping path key fb = record fb { path_mappings = emplace path key fb.path_mappings }

  unfoldable pub resolve_path : Text → FactBase D → Option Text
  resolve_path path fb = find path fb.path_mappings

  unfoldable pub source_of : Text → FactBase D → FactSource
  source_of key fb = elim (find key fb.entries) [
    | none ↦ source_of_kind FactSourceKind.default (text "")
    | some e ↦ e.source
  ]

  unfoldable pub all_entries : FactBase D → List (Text × Value D)
  all_entries fb = map (λ kv. (kv.0, kv.1.value)) fb.entries

  unfoldable pub all_sources : FactBase D → List (Text × FactSource)
  all_sources fb = map (λ kv. (kv.0, kv.1.source)) fb.entries

  -- A copy; values are not shared in the model.
  unfoldable pub snapshot : FactBase D → FactBase D
  snapshot fb = fb

  -- `Set` replaces the value of its key and no other.
  pub get-set :
      (i key : Text) (v : Value D) (src : FactSource) (fb : FactBase D)
      → get i (set key v src fb) ≡ (if text_eq key i then some v else get i fb)
  unfolding get set
  get-set i key v src fb =
      ground (arith, find-insert i key (record { value = v; source = src }) fb.entries)

  -- `Set` leaves the path mappings alone.
  pub resolve_path-set :
      (path key : Text) (v : Value D) (src : FactSource) (fb : FactBase D)
      → resolve_path path (set key v src fb) ≡ resolve_path path fb
  unfolding resolve_path set
  resolve_path-set path key v src fb = ground arith
