-- ===== src/Restore/Tests.antt =====
-- Examples of the tool, on a bucket and files in memory.
use tsdb_operator.Base.{
  [], ◌∷◌, ◌≡◌, ◌≢◌, String, List, Option, none, some, if◌then◌else◌, ◌==◌, ok, refl, sym, ap, ◌∙◌,
  eq_refl, take,
}
use tsdb_operator.Base.Int.{pos}
use tsdb_operator.Base.Clock.{long_stamp}
use tsdb_operator.Base.Order.{text_less}
use tsdb_operator.Restore.{Object, latest, latest_key}
use tsdb_operator.Restore.Command.{Options, default_options, Machine, parsed, restore, main}
use tsdb_operator.Restore.Downloads.{MachineLaws, IsChosen, IsSaved, restore-IsSaved}
use tsdb_operator.Restore.Empty.{restore-empty}
use tsdb_operator.Kube.Memory.{ok-injective}
use tsdb_operator.Base.Text.{◌<>◌}

abbrev february : Object
february = record {
  key = "prod/edge/a.tar";
  size = pos 1048576;
  last_modified = 63844806896000000000;
}

abbrev december : Object
december = record { key = "prod/edge/b.tar"; size = pos 2048; last_modified = 63871286399999999999 }

abbrev Files : Type 0
Files = String → Option String

abbrev listing : (bucket prefix : String) → List Object
listing bucket prefix = if prefix == "prod" then february ∷ december ∷ [] else []

abbrev content : (bucket key : String) → String
content bucket key = bucket <> key

abbrev remote : (bucket key : String) → Option String
remote bucket key = some (content bucket key)

abbrev machine : Machine Unit Unit String String Files
machine = record {
  parse = λ command defaults args. parsed defaults;
  load_aws_config = λ region w. (ok tt, w);
  new_client = λ aws options. tt;
  list_objects = λ s3 bucket prefix w. (ok (take 1000 (listing bucket prefix)), w);
  get_object = λ s3 bucket key w. (ok (content bucket key), w);
  mkdir_all = λ path w. (ok tt, w);
  create = λ path w. (ok path, λ p. if path == p then some "" else w p);
  copy = λ f body w. (ok (pos 9), λ p. if f == p then some body else w p);
  close_file = λ f w. w;
  close_body = λ b w. w;
  join = λ dir name. dir <> "/" <> name;
  base = λ path. path;
  print = λ s w. w;
  print_error = λ s w. w;
}

machine_laws : MachineLaws machine listing remote (λ w. w) (λ f. f) (λ b. b)
machine_laws = record {
  lists = λ s3 bucket prefix w os w' q. ok-injective os _ (sym (ap (λ x. x.0) q));
  gets = λ s3 bucket key w b w' q. ap some (ok-injective _ _ (ap (λ x. x.0) q));
  creates = λ path w f w' q. ok-injective _ _ (sym (ap (λ x. x.0) q));
  copies = λ f b w n w' q.
      let found : (if f == f then some b else w f) ≡ some b = rw (eq_refl f) refl in
      sym (ap (λ x. x.1 f) q) ∙ found;
  prints = λ s w. refl;
  closes_file = λ f w. refl;
  closes_body = λ b w. refl;
  loads = λ region w. refl;
  lists_only = λ s3 bucket prefix w. refl;
}

abbrev options : (prefix : String) → Options
options prefix = record default_options {
  flags = record { endpoint = ""; region = "us-east-1"; bucket = "tsdb"; prefix = prefix };
}

abbrev no_files : Files
no_files path = none

abbrev restored : Files
restored = (restore machine (options "prod") no_files).1

restored_ok : restore machine (options "prod") no_files ≡ (ok tt, restored)
unfolding restore latest_key latest long_stamp text_less
restored_ok = refl

restore_example :
    (key : String) × IsChosen machine listing remote (λ w. w) (λ f. f) (λ b. b) (options "prod") key
    × IsSaved machine listing remote (λ w. w) (λ f. f) (λ b. b) (options "prod") key restored
restore_example =
    restore-IsSaved machine listing remote (λ w. w) (λ f. f) (λ b. b) machine_laws (options "prod")
      no_files restored restored_ok

restore-empty_example :
    ((restore machine (options "dev") no_files).1 ≡ no_files)
    × ((restore machine (options "dev") no_files).0 ≢ ok tt)
restore-empty_example =
    restore-empty machine listing remote (λ w. w) (λ f. f) (λ b. b) machine_laws (options "dev")
      no_files refl refl

-- No bucket is given.
main_fails : (main machine ("tsdb-ctl" ∷ "restore" ∷ []) no_files).0 ≡ 1
unfolding main
main_fails = refl

main_unknown : (main machine ("tsdb-ctl" ∷ "prune" ∷ []) no_files).0 ≡ 2
unfolding main
main_unknown = refl
