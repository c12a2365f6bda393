-- ===== src/Stone/Logging/Examples.antt =====
-- Places that log, and configurations of sinks.
use Prim.Native.String.{String}
use recommender.Prelude.{ℕ, ◌%◌, ◌≡◌, refl, arith, true, false, List, [], ◌∷◌, ◌==◌}
use recommender.Run.{ok}
use recommender.Stone.Logging.{
  LogLevel, LogInfo, Place, View, const_next, linear_next, double_next, log_x,
}
use recommender.Stone.Logging.Configured.{adds}
use recommender.Stone.Logging.Doubling.{is_doubling}
use recommender.Stone.Logging.Rates.{unreached, acts-rates}
use recommender.Stone.Logging.Sampling.{Action, pass, switch, acts, sample}
use recommender.Stone.Logging.Sections.{begin, fields_of, end_log, end_log-log_x}
use recommender.Stone.Logging.Sinks.{Logger, add, get_flag, get_default}

abbrev here : Place
here = record { file = "main.cpp"; function = "main"; line = 12 }

abbrev root : View
root = record { path = "/apsara"; min_level = LogLevel.info }

abbrev warns : LogInfo
warns = record {
  enabled = true;
  stack_trace_enabled = false;
  default_level = LogLevel.warning;
  level = LogLevel.warning;
  counter = 0;
  file = "main.cpp";
  line = 12;
}

-- A pass that logs its number.
abbrev once : Action ℕ
once = pass root true "" (λ n. n ∷ [])

-- Ten passes, and one between them at which the place is switched off.
abbrev passes : List (Action ℕ)
passes =
    once
    ∷ once
    ∷ switch false
    ∷ once
    ∷ switch true
    ∷ once
    ∷ once
    ∷ once
    ∷ once
    ∷ once
    ∷ once
    ∷ once
    ∷ once
    ∷ []

acts-rates_example :
    let s = unreached warns in
    (acts here 3 const_next passes s ≡ ok (sample here (λ k. k == 3) passes s.s_info))
    × (acts here 3 linear_next passes s ≡ ok (sample here (λ k. k % 3 == 0) passes s.s_info))
    × (acts here 3 double_next passes s ≡ ok (sample here (is_doubling 3) passes s.s_info))
acts-rates_example = acts-rates here 3 passes warns (omega arith) (omega arith) (omega arith)

abbrev numbers : List ℕ
numbers = 4 ∷ 5 ∷ []

end_log-log_x_example :
    end_log (fields_of numbers (begin here root true "" warns))
    ≡ log_x here root true "" warns numbers
end_log-log_x_example = end_log-log_x here root true "" warns numbers

abbrev disabled : LogInfo
disabled = record warns { enabled = false }

abbrev pairs : List (String × String)
pairs = ("path", "/var") ∷ ("flush", "YES") ∷ ("path", "/tmp") ∷ []

-- A flag in other letters.
flush-lem : get_default get_flag (adds [] pairs) "flush" false false ≡ true
unfolding get_default get_flag adds add
flush-lem = refl

abbrev child : Logger
child = record { path = "/a/b"; min_level = LogLevel.error; inherited = true; sink_map = [] }

abbrev parent : Logger
parent = record { path = "/a"; min_level = LogLevel.info; inherited = false; sink_map = [] }

abbrev sinks : List (String × LogLevel)
sinks = ("File", LogLevel.info) ∷ ("File", LogLevel.error) ∷ []
