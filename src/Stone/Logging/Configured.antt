-- ===== src/Stone/Logging/Configured.antt =====
-- apsara/stone/logging: sequences of `Logger::AddSink` and of `SinkConfig::Add`, and what is read
-- afterwards.
use Prim.Native.String.{String}
use text.Mathlib.Text.{◌==◌ as str_eq}
use text.Mathlib.TextEquality.{eq_iff}
use recommender.Prelude.{
  ◌≡◌, refl, ◌∙◌, arith, ◌||◌, Bool, true, false, List, [], ◌∷◌, Option, none, some, if◌then◌else◌,
  Bool-cases, sym, ap, inl, inr,
}
use recommender.Stone.Logging.{LogLevel}
use recommender.Stone.Logging.Sinks.{
  find, assign, Logger, set_min_level, add_sink, inherit_from, SinkConfig, add, same_text,
}

module _ {V : Type 0} where
  abbrev pub or_else : Option V → Option V → Option V
  or_else none o = o
  or_else (some v) o = some v

  -- The value of the last pair with the key.
  unfoldable pub find_last : String → List (String × V) → Option V
  find_last k [] = none
  find_last k ((j, v) ∷ m) = or_else (find_last k m) (if str_eq j k then some v else none)

  find-assign :
      (k : String) (v : V) (m : List (String × V)) (j : String)
      → find j (assign k v m) ≡ (if str_eq k j then some v else find j m)
  unfolding find assign
  find-assign k v [] j = refl
  find-assign k v ((i, w) ∷ m) j =
      ground (arith, eq_iff k j, eq_iff i k, eq_iff i j, find-assign k v m j)

  or_else_if :
      (b : Bool) (v : V) (o : Option V)
      → or_else (if b then some v else none) o ≡ (if b then some v else o)
  or_else_if true v o = refl
  or_else_if false v o = refl

  or_else_assoc : (o p q : Option V) → or_else o (or_else p q) ≡ or_else (or_else o p) q
  or_else_assoc none p q = refl
  or_else_assoc (some v) p q = refl

-- `Add` for each pair, in this order.
unfoldable pub adds : SinkConfig → List (String × String) → SinkConfig
adds c [] = c
adds c ((k, v) ∷ ps) = adds (add c k v).0 ps

unfoldable pub add_sinks : Logger → List (String × LogLevel) → Logger
add_sinks l [] = l
add_sinks l ((k, v) ∷ ps) = add_sinks (add_sink l k v) ps

find-add_sinks :
    (l : Logger) (ps : List (String × LogLevel)) (j : String)
    → find j (add_sinks l ps).sink_map ≡ or_else (find_last j ps) (find j l.sink_map)
unfolding add_sinks add_sink find_last
find-add_sinks l [] j = refl
find-add_sinks l ((k, v) ∷ ps) j =
    find-add_sinks (add_sink l k v) ps j
    ∙ rw (find-assign k v l.sink_map j) (
        ap (or_else (find_last j ps)) (sym (or_else_if (str_eq k j) v (find j l.sink_map)))
        ∙ or_else_assoc (find_last j ps) _ (find j l.sink_map))

-- What a configuration gives for a key, by the value that it has for it.
abbrev pub text_or : Option String → String → String
text_or none def_val = def_val
text_or (some s) def_val = s

abbrev pub flag_or : Option String → Bool → Bool
flag_or none def_val = def_val
flag_or (some s) def_val = same_text s "true" || same_text s "yes"

abbrev pub value_or : {A : Type 0} → (String → A → A) → Option String → A → A → A
value_or extract none val def_val = def_val
value_or extract (some s) val def_val = extract s val

-- Of the sinks that are added to a logger the last with a key counts, over one from before. A logger that
-- inherits then has the sinks and the least level of the other, and one that does not stays as it is.
pub inherit_from-add_sinks :
    (child parent : Logger) (ps : List (String × LogLevel)) (level : LogLevel) (k : String)
    → let parent' = set_min_level (add_sinks parent ps) level in
      let (child', inherits) = inherit_from child parent' in
      (inherits ≡ child.inherited)
      × (find k parent'.sink_map ≡ or_else (find_last k ps) (find k parent.sink_map))
      × (find k child'.sink_map ≡ (
          if child.inherited
          then or_else (find_last k ps) (find k parent.sink_map)
          else find k child.sink_map))
      × (child'.min_level ≡ (if child.inherited then level else child.min_level))
unfolding inherit_from set_min_level
inherit_from-add_sinks child parent ps level k =
    let last = find-add_sinks parent ps k in
    elim (Bool-cases child.inherited) [
      | inl e ↦ (refl, last, simp (e) last, simp (e) refl)
      | inr e ↦ (refl, last, simp (e) refl, simp (e) refl)
    ]
