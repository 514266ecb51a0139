-- ===== src/Cli/Logs.antt =====
-- apps/cli/src/main.rs: `cmd_logs`.
use litedroid.Base.{String, ◌<>◌, Outcome, ok, err, panic, out_of_fuel, List, [], ◌∷◌, ℕ, take}
use litedroid.Action.{Action, pure, lift, gets, attempt, when, ◌>>=◌, ◌>>◌}
use litedroid.Host.{Host, JsonValue}
use litedroid.Config.{Toml, data_dir}
use litedroid.Cli.{Console, println, on_system}
use litedroid.Cli.Devices.{Files, with_config}

module _ {W V : Type 0} (host : Host W) (json : JsonValue V) (toml : Toml) (files : Files W)
    (uuid : String) where
  unfoldable pub print_lines : List String → Action (Console W) String (Unit {0})
  unfolding println ◌>>=◌
  print_lines [] = pure tt
  print_lines (line ∷ lines) = println line >> print_lines lines

  -- At most fifty lines of a log that can be read.
  unfoldable pub on_log : String → Outcome String String → Action (Console W) String (Unit {0})
  unfolding print_lines println ◌>>=◌
  on_log path (ok content) =
      println ("--- " <> path <> " ---") >> print_lines (take 50 (host.lines content))
  on_log path (err e) = pure tt
  on_log path panic = lift panic
  on_log path out_of_fuel = lift out_of_fuel

  unfoldable pub print_logs : List String → Action (Console W) String (Unit {0})
  unfolding on_log on_system attempt ◌>>=◌
  print_logs [] = pure tt
  print_logs (entry ∷ entries) = do
    content ← attempt (on_system (host.read_to_string entry))
    on_log entry content
    print_logs entries

  unfoldable pub show_logs : String → Action (Console W) String ℕ
  unfolding print_logs gets ◌>>=◌
  show_logs dir = do entries ← gets (λ c. files.read_dir c.system dir); print_logs entries; pure 0

  unfoldable pub cmd_logs : Action (Console W) String ℕ
  unfolding with_config show_logs println when ◌>>=◌
  cmd_logs = with_config host json toml files uuid (λ config.
      gets (λ c. host.exists c.system (host.join (data_dir host config) "logs")) >>= λ there.
      when there (show_logs (host.join (data_dir host config) "logs"))
        (println "No logs found." >> pure 0))
