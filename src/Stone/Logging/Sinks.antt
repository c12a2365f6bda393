-- ===== src/Stone/Logging/Sinks.antt =====
-- apsara/stone/logging/logging.h: `Logger`, and apsara/stone/logging/logging_impl.h: `SinkConfig`. A
-- `std::map` is an association list in which a key stands once.
use Prim.Native.String.{String, ◌∷◌ as char_cons, [] as no_chars}
use Prim.Native.Char.{code}
use text.Mathlib.Text.{◌==◌ as str_eq}
use recommender.Prelude.{
  ℕ, ◌+◌, ◌&&◌, ◌||◌, Bool, true, false, List, [], ◌∷◌, ◌++◌, Option, none, some, leb, ◌==◌,
  if◌then◌else◌,
}
use recommender.Stone.Logging.{LogLevel}

module _ {V : Type 0} where
  unfoldable pub find : String → List (String × V) → Option V
  find k [] = none
  find k ((j, v) ∷ m) = if str_eq j k then some v else find k m

  -- `m[k] = v`
  unfoldable pub assign : String → V → List (String × V) → List (String × V)
  assign k v [] = (k, v) ∷ []
  assign k v ((j, w) ∷ m) = if str_eq j k then (j, v) ∷ m else (j, w) ∷ assign k v m

  -- `m.insert(make_pair(k, v))`, and whether it has added the pair.
  unfoldable pub insert : String → V → List (String × V) → List (String × V) × Bool
  unfolding find
  insert k v m = elim (find k m) [ none ↦ (m ++ ((k, v) ∷ []), true) | some w ↦ (m, false) ]

-- What `Config` sets: the field `mSinkMap` is the sinks with their levels.
pub record Logger : Type 0 where
  pub path : String
  pub min_level : LogLevel
  pub inherited : Bool
  pub sink_map : List (String × LogLevel)

unfoldable pub set_min_level : Logger → LogLevel → Logger
set_min_level l level = record l { min_level = level }

unfoldable pub set_inherited : Logger → Bool → Logger
set_inherited l inherited = record l { inherited = inherited }

unfoldable pub clear_sink_map : Logger → Logger
clear_sink_map l = record l { sink_map = [] }

unfoldable pub add_sink : Logger → String → LogLevel → Logger
unfolding assign
add_sink l key level = record l { sink_map = assign key level l.sink_map }

-- `Inherit`, and the Boolean that it returns.
unfoldable pub inherit_from : Logger → Logger → Logger × Bool
inherit_from l parent = (
  if l.inherited then record l { sink_map = parent.sink_map; min_level = parent.min_level } else l,
  l.inherited,
)

abbrev pub SinkConfig : Type 0
SinkConfig = List (String × String)

unfoldable pub add : SinkConfig → String → String → SinkConfig × Bool
unfolding insert
add c key val = insert key val c

-- Each `Get` returns what `*val` is after it, and a Boolean. `extract` is `ss >> *val` on a stream with
-- the given text, which may leave the value as it was.
unfoldable pub get_value : {A : Type 0} → (String → A → A) → SinkConfig → String → A → A × Bool
unfolding find
get_value extract c key val = elim (find key c) [
  | none ↦ (val, false)
  | some s ↦ (extract s val, true)
]

unfoldable pub get_string : SinkConfig → String → String → String × Bool
unfolding find
get_string c key val = elim (find key c) [ none ↦ (val, false) | some s ↦ (s, true) ]

-- `tolower` on the characters of ASCII.
abbrev pub to_lower : ℕ → ℕ
to_lower c = if leb b'A' c && leb c b'Z' then c + 32 else c

-- `strcasecmp(s, t) == 0`
unfoldable pub same_text : String → String → Bool
same_text no_chars no_chars = true
same_text no_chars (char_cons d t) = false
same_text (char_cons c s) no_chars = false
same_text (char_cons c s) (char_cons d t) =
    (to_lower (code c) == to_lower (code d)) && same_text s t

unfoldable pub get_flag : SinkConfig → String → Bool → Bool × Bool
unfolding get_string same_text
get_flag c key flag =
    let (val, found) = get_string c key "" in
    if found then (same_text val "true" || same_text val "yes", true) else (flag, false)

-- The `Get` with a default value, over one of the others.
unfoldable pub get_default :
    {A : Type 0} → (SinkConfig → String → A → A × Bool) → SinkConfig → String → A → A → A
get_default get c key val def_val =
    let (val', found) = get c key val in if found then val' else def_val
