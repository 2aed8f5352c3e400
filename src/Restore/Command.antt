-- ===== src/Restore/Command.antt =====
-- The commands of the tool: what they call, in order, and how they end.
use tsdb_operator.Base.{
  ℕ, String, List, [], ◌∷◌, ◌==◌, if◌then◌else◌, Result, ok, err, panic, other, Error, Action, pure,
  throw, wrapping, modify, ◌>>=◌, ◌>>◌,
}
use tsdb_operator.Base.Int.{ℤ}
use tsdb_operator.Base.Text.{◌<>◌, line}
use tsdb_operator.Base.Text.Decimal.{decimal, right}
use tsdb_operator.Startup.{S3Options, s3_options}
use tsdb_operator.Restore.{Object, stamp_of, listed, latest_key}

pub record S3Flags : Type 0 where
  pub endpoint : String
  pub region : String
  pub bucket : String
  pub prefix : String

-- The flags of `restore`, which `list` has without `key` and `dest`.
pub record Options : Type 0 where
  pub flags : S3Flags
  pub key : String
  pub dest : String

abbrev pub default_s3_flags : S3Flags
default_s3_flags = record { endpoint = ""; region = "us-east-1"; bucket = ""; prefix = "" }

abbrev pub default_options : Options
default_options = record { flags = default_s3_flags; key = ""; dest = "./restore" }

-- flag.ExitOnError: the options, or the end of the program with a status.
pub data Parsed : Type 0 where
  parsed : Options → Parsed
  exits : (status : ℕ) → Parsed

-- The AWS SDK, files, paths and flags. `load_aws_config` and `new_client` make an S3 client; `copy`
-- answers with the number of bytes; `parse` reads the flags of a command over the defaults.
pub record Machine (Aws S3 File Body W : Type 0) : Type 0 where
  pub parse : (command : String) → (defaults : Options) → List String → Parsed
  pub load_aws_config : (region : String) → Action W Aws
  pub new_client : Aws → S3Options → S3
  pub list_objects : S3 → (bucket prefix : String) → Action W (List Object)
  pub get_object : S3 → (bucket key : String) → Action W Body
  pub mkdir_all : (path : String) → Action W Unit
  pub create : (path : String) → Action W File
  pub copy : File → Body → Action W ℤ
  pub close_file : File → W → W
  pub close_body : Body → W → W
  pub join : (dir name : String) → String
  pub base : (path : String) → String
  pub print : String → W → W
  pub print_error : String → W → W

abbrev pub failed : String → Error
failed message = record { reason = other; message = message }

-- `defer` of a call, around what is done after it.
abbrev pub deferred : {W A : Type 0} → (W → W) → Action W A → Action W A
deferred close m w = let (r, w') = m w in (r, close w')

abbrev pub entry_line : Object → String
entry_line o = line (stamp_of o <> "  " <> right 10 (decimal o.size) <> "  " <> o.key)

abbrev pub usage : String
usage =
    line "tsdb-ctl — companion CLI for tsdb-operator"
    <> line ""
    <> line "Commands:"
    <> line "  list     List available snapshots in S3"
    <> line "  restore  Download a snapshot from S3 to a local directory"
    <> line ""
    <> line "Run 'tsdb-ctl <command> -h' for command flags."

module _ {Aws S3 File Body W : Type 0} (m : Machine Aws S3 File Body W) where
  unfoldable pub client : S3Flags → Action W S3
  client f =
      if f.bucket == ""
      then throw (failed "--bucket is required")
      else wrapping "load aws config" (m.load_aws_config f.region) >>= λ aws.
          pure (m.new_client aws (s3_options f.endpoint))

  abbrev pub print_entries : List Object → W → W
  print_entries [] w = w
  print_entries (o ∷ os) w = print_entries os (m.print (entry_line o) w)

  unfoldable pub list : Options → Action W Unit
  unfolding client
  list o = do
    s3 ← client o.flags
    objects ← wrapping "list objects" (m.list_objects s3 o.flags.bucket o.flags.prefix)
    modify (print_entries (listed objects))

  abbrev pub chosen : S3Flags → String → Action W String
  chosen f latest =
      if latest == ""
      then throw (failed ("no objects under s3://" <> f.bucket <> "/" <> f.prefix))
      else pure latest

  -- The key to download.
  unfoldable pub resolve : S3 → Options → Action W String
  resolve s3 o =
      if o.key == ""
      then latest_key (m.list_objects s3) o.flags.bucket o.flags.prefix >>= chosen o.flags
      else pure o.key

  abbrev pub report : S3Flags → (key local : String) → ℤ → W → W
  report f key local n w =
      m.print (line "  3. Delete the pod so the StatefulSet reschedules with restored data.") (
        m.print
          (line (
            "  2. kubectl exec -n <ns> <prometheus-pod> -- tar -xf /prometheus/"
            <> m.base key
            <> " -C /prometheus/"))
          (m.print (line ("  1. kubectl cp " <> local <> " <ns>/<prometheus-pod>:/prometheus/")) (
            m.print (line "Next steps:") (
              m.print (line "") (
                m.print
                  (line (
                    "downloaded s3://"
                    <> f.bucket
                    <> "/"
                    <> key
                    <> " → "
                    <> local
                    <> " ("
                    <> decimal n
                    <> " bytes)"))
                  w)))))

  unfoldable pub download : S3 → S3Flags → (key local : String) → File → Action W Unit
  download s3 f key local file = do
    body ← wrapping "get object" (m.get_object s3 f.bucket key)
    deferred (m.close_body body)
        (wrapping "write snapshot" (m.copy file body) >>= λ n. modify (report f key local n))

  unfoldable pub save : S3 → Options → (key : String) → Action W Unit
  unfolding download
  save s3 o key = do
    wrapping "mkdir dest" (m.mkdir_all o.dest)
    let local = m.join o.dest (m.base key)
    file ← wrapping "create file" (m.create local)
    deferred (m.close_file file) (download s3 o.flags key local file)

  unfoldable pub restore : Options → Action W Unit
  unfolding client resolve save
  restore o = do s3 ← client o.flags; key ← resolve s3 o; save s3 o key

  -- The status that a command ends the program with.
  abbrev pub ended : Result Unit × W → ℕ × W
  ended (ok a, w) = (0, w)
  ended (err e, w) = (1, m.print_error (line ("error: " <> e.message)) w)
  ended (panic, w) = (2, w)

  abbrev pub running : (Options → Action W Unit) → Parsed → W → ℕ × W
  running command (parsed o) w = ended (command o w)
  running command (exits status) w = (status, w)

  abbrev pub dispatch : (command : String) → List String → W → ℕ × W
  dispatch command args w =
      if command == "restore"
      then running restore (m.parse "restore" default_options args) w
      else if command == "list"
      then running list (m.parse "list" default_options args) w
      else (2, m.print_error usage w)

  -- The arguments begin with the name of the program.
  unfoldable pub main : List String → W → ℕ × W
  unfolding list restore
  main [] w = (2, m.print_error usage w)
  main (program ∷ []) w = (2, m.print_error usage w)
  main (program ∷ command ∷ args) w = dispatch command args w
