-- ===== src/Stone/Logging/Sections.antt =====
-- apsara/stone/logging/logging.h: `STONE_LOG_X_BEGIN`, `STONE_LOG_FIELD` and `STONE_LOG_X_END`, and
-- `LOG_TRACE_IF`.
use Prim.Native.String.{String}
use mathlib.Core.List.{append_assoc, append-nil}
use recommender.Prelude.{
  ℕ, ◌≡◌, refl, ◌&&◌, Bool, true, false, not, List, [], ◌∷◌, ◌++◌, Option, none, some, leb, ◌==◌,
  if◌then◌else◌, Bool-cases, inl, inr, sym, ap, ◌∙◌,
}
use recommender.Run.{Run}
use recommender.Stone.Logging.{
  LogLevel, rank, LogInfo, Place, View, Message, log_enabled, stacktrace, message, log_x,
}

-- The local variables of a section: whether it logs, the level and the logger, which are read once, and
-- the builder. A builder with which `Init` was not called is `none`.
pub record Section (F : Type 0) : Type 0 where
  pub enabled : Bool
  pub lv : LogLevel
  pub builder : Option (Message F)

module _ {F : Type 0} where
  -- The builder, called with a field.
  abbrev pub and_field : Message F → F → Message F
  and_field m f = record m { fields = m.fields ++ (f ∷ []) }

  abbrev pub call : Option (Message F) → F → Option (Message F)
  call none f = none
  call (some m) f = some (and_field m f)

  -- `AppendLog`, with the level.
  abbrev pub append_log : Option (Message F) → LogLevel → List (Message F)
  append_log none lv = []
  append_log (some m) lv = record m { at_level = lv } ∷ []

  unfoldable pub begin : Place → View → Bool → String → LogInfo → Section F
  begin place logger thread_enabled trace i =
      let enabled = log_enabled logger i thread_enabled in
      record {
        enabled = enabled;
        lv = i.level;
        builder = if enabled then some (message place logger i trace []) else none;
      }

  unfoldable pub field : F → Section F → Section F
  field f s = if s.enabled then record s { builder = call s.builder f } else s

  unfoldable pub end_log : Section F → List (Message F)
  end_log s = if s.enabled then append_log s.builder s.lv else []

  unfoldable pub fields_of : List F → Section F → Section F
  fields_of [] s = s
  fields_of (f ∷ fs) s = fields_of fs (field f s)

  shut-lem :
      (fs : List F) (lv : LogLevel) (b : Option (Message F))
      → end_log (fields_of fs (record { enabled = false; lv = lv; builder = b })) ≡ []
  unfolding end_log fields_of field
  shut-lem [] lv b = refl
  shut-lem (f ∷ fs) lv b = shut-lem fs lv b

  open-lem :
      (fs : List F) (lv : LogLevel) (m : Message F)
      → end_log (fields_of fs (record { enabled = true; lv = lv; builder = some m }))
        ≡ record m { fields = m.fields ++ fs; at_level = lv } ∷ []
  unfolding end_log fields_of field
  open-lem [] lv m =
      ap (λ (fs : List F). record m { fields = fs; at_level = lv } ∷ []) (sym (append-nil m.fields))
  open-lem (f ∷ fs) lv m =
      open-lem fs lv (and_field m f)
      ∙ ap (λ (gs : List F). record m { fields = gs; at_level = lv } ∷ [])
          (append_assoc m.fields (f ∷ []) fs)

  -- A section logs what one call of `STONE_LOG_X` with all its fields logs.
  pub end_log-log_x :
      (place : Place) (logger : View) (thread_enabled : Bool) (trace : String) (i : LogInfo)
      (fs : List F)
      → end_log (fields_of fs (begin place logger thread_enabled trace i))
        ≡ log_x place logger thread_enabled trace i fs
  unfolding begin log_x message
  end_log-log_x place logger on trace i fs = elim (Bool-cases (log_enabled logger i on)) [
    | inl e ↦ rw e (open-lem fs i.level (message place logger i trace []))
    | inr e ↦ rw e (shut-lem fs i.level none)
  ]

-- What `pthread_getspecific` gives, if it is not the null pointer.
pub record TraceInfo : Type 0 where
  pub tid : ℕ
  pub sid : ℕ

abbrev pub is_traced : Option TraceInfo → Bool
is_traced none = false
is_traced (some ti) = not (ti.tid == 0)

module _ {F : Type 0} (id sid : ℕ → F) (thread time : F) where
  -- The fields with the two of the trace before them, and the two of the thread and the time behind.
  unfoldable pub trace_fields : Option TraceInfo → List F → List F
  trace_fields none fields = fields ++ (thread ∷ time ∷ [])
  trace_fields (some ti) fields =
      if ti.tid == 0
      then fields ++ (thread ∷ time ∷ [])
      else id ti.tid ∷ sid ti.sid ∷ (fields ++ (thread ∷ time ∷ []))

  -- `LOG_TRACE_IF`: the calls of `AppendLog` of the tracer's logger, and of the macro's.
  unfoldable pub log_trace_if :
      Place
      → String
      → Bool
      → View
      → LogLevel
      → Bool
      → String
      → LogInfo
      → Option TraceInfo
      → List F
      → List (Message F) × List (Message F)
  log_trace_if place tracer_path condition logger level thread_enabled trace i ti fields =
      let m : Message F = record {
        path = tracer_path;
        level = i.level;
        place = place;
        stack_trace = stacktrace i trace;
        fields = trace_fields ti fields;
        at_level = i.level;
      } in
      if condition
      then (
        if is_traced ti then m ∷ [] else [],
        if leb (rank logger.min_level) (rank level) && thread_enabled then m ∷ [] else [],
      )
      else ([], [])
