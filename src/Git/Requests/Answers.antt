-- ===== src/Git/Requests/Answers.antt =====
-- Read and Write of WriteReference.cpp. RepoProxy.cpp posts a task to the thread that runs the manager, and Read
-- waits for its result: the call is the manager's step; Git/Proxy has its way through the pump.
use gitrpc.Prelude.{Bool, true, false, Option, none, some, String, if◌then◌else◌, ◌>>=◌}
use text.Mathlib.Text.{◌==◌ as str_eq}
use gitrpc.Git.Library.{Libgit2, is_success}
use gitrpc.Git.Manager.{
  Request, Reply, State, reference_request, nothing, message, references, handle,
}

-- nexus::GenericResponse, and what of grpc::Status the handlers use.
pub record GenericResponse : Type 0 where
  pub success : Bool
  pub error_message : String

pub data Status : Type 0 where
  ok_status : String → Status
  internal_status : String → Status
  unknown_status : String → Status
  unimplemented_status : String → Status

-- The arguments of `Finish`.
pub record Finished : Type 0 where
  pub response : GenericResponse
  pub status : Status

-- nexus::RepoStateChangeRequest and the request of WriteReference.
pub record RepoStateChangeRequest : Type 0 where
  pub new_repo_state : Bool
  pub repo_name : String

pub record WriteReferenceRequest : Type 0 where
  pub ref_name : String
  pub ref_rev : String

-- Write, with the text that it compares the message with.
unfoldable pub write : String → String → Finished
write expected msg =
    if str_eq msg expected
    then record {
      response = record { success = true; error_message = msg };
      status = ok_status "Success";
    }
    else record {
      response = record { success = false; error_message = msg };
      status = internal_status msg;
    }

-- The text that the promise of a request is set to.
abbrev pub reply_text : Reply → Option String
reply_text nothing = none
reply_text (message msg) = some msg
reply_text (references response) = none

module _ (git : Libgit2) where
  -- A call of RepoProxy with the `wait` for its future, for the request that the manager receives.
  unfoldable pub proxy : Request → State git → Option (String × State git)
  proxy q s = handle git q s >>= λ (reply, s1). reply_text reply >>= λ msg. some (msg, s1)

  unfoldable pub write_reference : WriteReferenceRequest → State git → Option (Finished × State git)
  write_reference request s =
      proxy (reference_request request.ref_name request.ref_rev) s >>= λ (err, s1).
      some (if is_success err then write "Success" "Success" else write "Success" err, s1)
