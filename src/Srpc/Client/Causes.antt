-- ===== src/Srpc/Client/Causes.antt =====
-- The codes that src/srpc/SrpcServer.ts closes sockets with, as src/srpc/SrpcClient.ts reads them.
use dk_server_foundation.Common.{◌≡◌, refl, nat_eq}
use dk_server_foundation.Srpc.Messages.{SrpcDisconnectCause}
use dk_server_foundation.Srpc.Server.{close_code}
use dk_server_foundation.Srpc.Client.Connection.{parse_disconnect_cause}

-- A client reads, from the code that the server closes a socket with, the cause that the server
-- closed it for.
pub parse_disconnect_cause-close_code :
    (cause : SrpcDisconnectCause) → parse_disconnect_cause (close_code cause) ≡ cause
unfolding parse_disconnect_cause close_code
parse_disconnect_cause-close_code SrpcDisconnectCause.disconnect = refl
parse_disconnect_cause-close_code SrpcDisconnectCause.bad_arg = refl
parse_disconnect_cause-close_code SrpcDisconnectCause.conflict = refl
parse_disconnect_cause-close_code SrpcDisconnectCause.supersede = refl
parse_disconnect_cause-close_code SrpcDisconnectCause.timeout = refl
