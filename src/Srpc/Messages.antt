-- ===== src/Srpc/Messages.antt =====
-- src/srpc/types.ts: what the messages of the streaming RPC carry. `J` is the type of the payloads,
-- and trace contexts are left out. An empty text counts as absent, as it is falsy.
use dk_server_foundation.Common.{
  ℕ, String, Bool, Option, none, some, List, ◌==◌, string_eq, if◌then◌else◌,
}

pub data ByteStreamOperation : Type 0 where
  write : ℕ → List ℕ → ByteStreamOperation
  finish : ℕ → ByteStreamOperation
  destroy : ℕ → Option String → ByteStreamOperation
  nothing : ℕ → ByteStreamOperation

-- `fields` are the requests or responses that are set, by their key.
pub record BaseMessage (J : Type 0) : Type 0 where
  pub request_id : Option String
  pub reply : Bool
  pub error : Option String
  pub user_error : Bool
  pub ping_pong : Bool
  pub byte_stream_operation : Option ByteStreamOperation
  pub fields : List (String × J)

pub data SrpcDisconnectCause : Type 0 where
  disconnect : SrpcDisconnectCause
  conflict : SrpcDisconnectCause
  supersede : SrpcDisconnectCause
  timeout : SrpcDisconnectCause
  bad_arg : SrpcDisconnectCause

pub record SrpcError : Type 0 where
  pub message : String
  pub is_user_error : Bool

-- A text that is present and not empty.
abbrev pub text_of : Option String → Option String
text_of none = none
text_of (some t) = if t == "" then none else some t
