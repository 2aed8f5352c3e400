-- ===== src/Backups/Stream/Clients.antt =====
-- internal/backup/exec.go and s3client.go: a command run through the exec subresource of a pod, and
-- the multipart upload of a stream.
use tsdb_operator.Base.{
  ℕ, String, ◌≡◌, Option, none, some, List, Bool, true, Error, wrap, Result, wrapping_result, ok,
  ◌⊎◌, inl, inr,
}
use tsdb_operator.Backups.Stream.{Command, returns, Asked, asks, ends, Uploader}
use tsdb_operator.Backups.Stream.Laws.{UploadLaws}

-- The request that is built for a command: its verb, resource, name, namespace and subresource, and
-- the `PodExecOptions`.
pub record ExecRequest : Type 0 where
  pub verb : String
  pub resource : String
  pub name : String
  pub namespace : String
  pub subresource : String
  pub container : String
  pub command : List String
  pub stdout : Bool
  pub stderr : Bool

-- k8s.io/client-go: the client set of a configuration, the URL of a request, the executor of a method
-- and a URL, and what that one does with the writer for the standard output.
pub record ClientGo (Config Clientset Executor Byte : Type 0) : Type 0 where
  pub new_for_config : Config → Result Clientset
  pub url : Clientset → ExecRequest → String
  pub new_executor : Config → (method url : String) → Error ⊎ Executor
  pub stream_with_context : Executor → Command Byte

pub record SpdyExecutor (Config Clientset : Type 0) : Type 0 where
  pub config : Config
  pub clientset : Clientset

abbrev pub with_config :
    {Config Clientset : Type 0} → Config → Result Clientset → Result (SpdyExecutor Config Clientset)
with_config cfg (ok cs) = ok (record { config = cfg; clientset = cs })
with_config cfg (Result.err e) = Result.err e
with_config cfg Result.panic = Result.panic

module _ {Config Clientset Executor Byte : Type 0}
    (k : ClientGo Config Clientset Executor Byte) where
  unfoldable pub new_spdy_executor : Config → Result (SpdyExecutor Config Clientset)
  new_spdy_executor cfg =
      with_config cfg (wrapping_result "kubernetes clientset" (k.new_for_config cfg))

  abbrev pub executed : Error ⊎ Executor → Command Byte
  executed (inl e) = returns (some (wrap "new executor" e))
  executed (inr executor) = k.stream_with_context executor

  abbrev pub exec_request : (namespace pod container : String) → List String → ExecRequest
  exec_request namespace pod container cmd = record {
    verb = "POST";
    resource = "pods";
    name = pod;
    namespace = namespace;
    subresource = "exec";
    container = container;
    command = cmd;
    stdout = true;
    stderr = true;
  }

  unfoldable pub exec :
      SpdyExecutor Config Clientset
      → (namespace pod container : String) → List String
      → Command Byte
  exec e namespace pod container cmd = executed (
      k.new_executor e.config "POST" (k.url e.clientset (exec_request namespace pod container cmd)))

-- The S3 client and the multipart manager around it.
pub record S3Client (Client Byte : Type 0) : Type 0 where
  pub client : Client
  pub multipart : (bucket key : String) → Uploader Byte

module _ {Byte : Type 0} where
  abbrev pub wrapped : Asked Byte → Asked Byte
  wrapped (asks room) = asks room
  wrapped (ends none object) = ends none object
  wrapped (ends (some e) object) = ends (some (wrap "multipart upload" e)) object

  wrapped-asks : (a : Asked Byte) (room : ℕ) → wrapped a ≡ asks room → a ≡ asks room
  wrapped-asks (asks room) n e = e
  wrapped-asks (ends none object) n e = e
  wrapped-asks (ends (some x) object) n e = absurd cc

  abbrev Unwrapped : Asked Byte → Option (List Byte) → Type 0
  Unwrapped a object = (put : Option Error) × (a ≡ ends put object)

  wrapped-ends :
      (a : Asked Byte) (put : Option Error) (object : Option (List Byte))
      → wrapped a ≡ ends put object
      → Unwrapped a object
  wrapped-ends (asks room) put object e = absurd cc
  wrapped-ends (ends none o) put object e = (put, e)
  wrapped-ends (ends (some x) o) put object e = (some x, cc)

  wrapped-none :
      (a : Asked Byte) (object : Option (List Byte))
      → wrapped a ≡ ends none object
      → a ≡ ends none object
  wrapped-none (asks room) object e = e
  wrapped-none (ends none o) object e = e
  wrapped-none (ends (some x) o) object e = absurd cc

module _ {Client Byte : Type 0} where
  unfoldable pub new_s3_client :
      (new_uploader : Client → (bucket key : String) → Uploader Byte)
      → Client
      → S3Client Client Byte
  new_s3_client new_uploader c = record { client = c; multipart = new_uploader c }

  unfoldable pub stream_upload : S3Client Client Byte → (bucket key : String) → Uploader Byte
  stream_upload c bucket key reads = wrapped (c.multipart bucket key reads)

  -- The error that is wrapped changes nothing of what the upload is relied on for.
  pub stream_upload-UploadLaws :
      (c : S3Client Client Byte) (bucket key : String)
      → UploadLaws (c.multipart bucket key)
      → UploadLaws (stream_upload c bucket key)
  unfolding stream_upload
  stream_upload-UploadLaws c bucket key laws = record {
    reads_some = λ reads room e. laws.reads_some reads room (wrapped-asks _ room e);
    stores_all =
        λ reads put x e. let (p, q) = wrapped-ends _ put (some x) e in laws.stores_all reads p x q;
    stores_one = λ reads object e. laws.stores_one reads object (wrapped-none _ object e);
  }
