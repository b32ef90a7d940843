-- ===== src/Protocol.antt =====
-- src/protocol.rs: the close codes and their numbers on the wire.
pub mod Codes
use hcnet.Base.{ℕ, ◌==◌, if◌then◌else◌}

pub data CloseCode : Type 0 where
  normal away protocol unsupported status abnormal invalid policy : CloseCode
  size extension error restart again tls empty : CloseCode
  other : ℕ → CloseCode

pub to_u16 : CloseCode → ℕ
to_u16 normal = 1000
to_u16 away = 1001
to_u16 protocol = 1002
to_u16 unsupported = 1003
to_u16 status = 1005
to_u16 abnormal = 1006
to_u16 invalid = 1007
to_u16 policy = 1008
to_u16 size = 1009
to_u16 extension = 1010
to_u16 error = 1011
to_u16 restart = 1012
to_u16 again = 1013
to_u16 tls = 1015
to_u16 empty = 0
to_u16 (other code) = code

pub from_u16 : ℕ → CloseCode
from_u16 code =
    if code == 1000
    then normal
    else if code == 1001
    then away
    else if code == 1002
    then protocol
    else if code == 1003
    then unsupported
    else if code == 1005
    then status
    else if code == 1006
    then abnormal
    else if code == 1007
    then invalid
    else if code == 1008
    then policy
    else if code == 1009
    then size
    else if code == 1010
    then extension
    else if code == 1011
    then error
    else if code == 1012
    then restart
    else if code == 1013
    then again
    else if code == 1015
    then tls
    else if code == 0
    then empty
    else other code
