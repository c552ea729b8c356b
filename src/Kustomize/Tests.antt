-- ===== src/Kustomize/Tests.antt =====
-- A file system with one directory and one file.
use bonk.Base.{true, false, none, ◌≡◌, refl, ◌==◌, if◌then◌else◌}
use bonk.Errors.{ok, error, message}
use bonk.Kustomize.{Afero, cleaned_abs}

abbrev one_file : Afero Unit
one_file = record {
  is_dir = λ path w. (path == "/dir", none);
  exists = λ path w. (true, none);
  stat = λ path w. if path == "/dir/a.yaml" then ok false else error (message "not found");
}

split_path : cleaned_abs one_file "dir/a.yaml" tt ≡ ok ("/dir/", "a.yaml")
unfolding cleaned_abs
split_path = refl
