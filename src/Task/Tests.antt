-- ===== src/Task/Tests.antt =====
-- Names and results.
use bonk.Base.{String, [], ◌∷◌, some, none, if◌then◌else◌, ◌==◌, ◌≡◌, refl}
use bonk.Base.Text.{append}
use bonk.Errors.{Outcome, ok, error, message}
use bonk.Task.Files.{Afero}
use bonk.Task.Value.{Value, Task}
use bonk.Task.Id.{new_id}
use bonk.Task.Result.{Result}
use bonk.Task.Result.Json.{ResultJson}

new_id_parts : new_id ("test" ∷ "echo" ∷ []) ≡ "test.echo"
unfolding new_id
new_id_parts = refl

abbrev followup : Task
followup = record {
  id = "next";
  executor = "test.echo";
  inputs = some ("a.txt" ∷ []);
  dependencies = none;
  args = Value.nil;
}

abbrev whole : Result
whole = record { outputs = "out" ∷ []; followup_tasks = followup ∷ [] }

abbrev whole_json : ResultJson
whole_json = record { outputs = "out" ∷ []; followup_tasks = some followup ∷ [] }

abbrev begun : Result
begun = record { outputs = "early" ∷ []; followup_tasks = [] }

-- A disk of one file, its path and what it holds, and file systems as the paths that they read.
abbrev join_paths : String → String → String
join_paths a b = append a (append "/" b)

abbrev read : (String → String) → String → String × String → Outcome String
read fs p (q, x) = if q == fs p then ok x else error (message "no such file")

abbrev one_file : Afero (String × String) (String → String)
one_file = record {
  new_os_fs = λ p. p;
  new_base_path_fs = λ fs base p. fs (join_paths base p);
  new_read_only_fs = λ fs. fs;
  join = join_paths;
  read_file = read;
  write_file = λ fs p x w. (none, (fs p, x));
}

abbrev Anywhere : String → Type 0
Anywhere p = Unit
