-- ===== src/Channel/Errors.antt =====
-- The error types of src/channel.
use fork_perun_rs.Base.{ℕ}
use fork_perun_rs.Types.{Address}
use fork_perun_rs.Abi.Ser as AbiSer
use fork_perun_rs.Sig as SigModule

abbrev pub AbiError : Type 0
AbiError = AbiSer.Error

abbrev pub SigError : Type 0
SigError = SigModule.Error

pub data InvalidUpdate : Type 0 where
  invalid_channel_id invalid_version_number current_state_is_final assets_mismatch
        total_allocation_amount_mismatch :
      InvalidUpdate

pub data ProposeUpdateError : Type 0 where
  abi_encode_error : AbiError → ProposeUpdateError
  invalid_update : InvalidUpdate → ProposeUpdateError

pub data HandleUpdateError : Type 0 where
  abi_encode_error : AbiError → HandleUpdateError
  recovery_failed : SigError → HandleUpdateError
  invalid_signature : Address → HandleUpdateError
  invalid_update : InvalidUpdate → HandleUpdateError

pub data SignError : Type 0 where
  abi_encode_error : AbiError → SignError
  already_signed : SignError

pub data InvalidChannel : Type 0 where
  wrong_version wrong_channel_id : InvalidChannel

pub data AddSignatureError : Type 0 where
  abi_encode_error : AbiError → AddSignatureError
  recovery_failed : SigError → AddSignatureError
  already_signed : AddSignatureError
  invalid_signature : Address → AddSignatureError
  invalid_channel_id : AddSignatureError
  invalid_version_number : AddSignatureError
  wrong_version : AddSignatureError
  wrong_channel_id : AddSignatureError

pub data AcceptError : Type 0 where
  abi_encode_error : AbiError → AcceptError
  already_accepted wrong_version wrong_channel_id : AcceptError

pub data ApplyError : Type 0 where
  missing_signature : ℕ → ApplyError
  sign_error : SignError → ApplyError
  wrong_version wrong_channel_id : ApplyError

pub data BuildError : Type 0 where
  missing_signature_response : ℕ → BuildError
  abi_encode_error : AbiError → BuildError

pub data HandleAcceptError : Type 0 where
  invalid_proposal_id already_accepted : HandleAcceptError

pub data AlreadyAcceptedError : Type 0 where
  already_accepted_error : AlreadyAcceptedError

pub data ProposalBuildError : Type 0 where
  abi_encode_error : AbiError → ProposalBuildError
  missing_acc_response : ℕ → ProposalBuildError

-- `From<InvalidChannel>`.
abbrev pub accept_error_from : InvalidChannel → AcceptError
accept_error_from InvalidChannel.wrong_version = AcceptError.wrong_version
accept_error_from InvalidChannel.wrong_channel_id = AcceptError.wrong_channel_id

abbrev pub apply_error_from : InvalidChannel → ApplyError
apply_error_from InvalidChannel.wrong_version = ApplyError.wrong_version
apply_error_from InvalidChannel.wrong_channel_id = ApplyError.wrong_channel_id

abbrev pub add_signature_error_from : InvalidChannel → AddSignatureError
add_signature_error_from InvalidChannel.wrong_version = AddSignatureError.wrong_version
add_signature_error_from InvalidChannel.wrong_channel_id = AddSignatureError.wrong_channel_id
