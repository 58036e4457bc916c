-- ===== src/Wire/Requests.antt =====
-- src/messages/funding_request.rs and watch_request.rs: the conversions of the messages to the
-- funder and the watcher. Writing parameters can panic in the code, as it computes the channel's id.
pub mod Laws
use fork_perun_rs.Base.{
  ◌%◌, List, [], ◌∷◌, some, Outcome, ok, err, ◌>>=◌, map, length, replicate, not, ◌==◌,
  if◌then◌else◌,
}
use fork_perun_rs.Base
use fork_perun_rs.External.{External}
use fork_perun_rs.Types.{Bytes, Signature}
use fork_perun_rs.Payment.{State}
use fork_perun_rs.Messages.{
  ConversionError, exptected_some, participant_size_missmatch, LedgerChannelFundingRequest,
  Transaction, AdjudicatorReq, StartWatchingLedgerChannelReq, SignedWithdrawalAuth, WatchInfo,
}
use fork_perun_rs.Wire.{u32_bound, try_bytes, try_some, fill}
use fork_perun_rs.Wire.Perunwire
use fork_perun_rs.Wire.Payments.{
  asset_count, participant_count, try_params, into_params, try_state, into_state, try_balances,
  into_balances,
}

-- `Signature::default()`
abbrev zero_signature : Signature
zero_signature = replicate 65 0

-- The loop over the signatures.
abbrev pub try_sigs : List Bytes → Outcome ConversionError (List Signature)
try_sigs sigs = fill (try_bytes 65) (replicate participant_count zero_signature) sigs

unfoldable pub try_fund_req :
    External → Perunwire.FundReq → Outcome ConversionError LedgerChannelFundingRequest
try_fund_req x value = do
  funding_agreement ← try_some (try_balances x) value.agreement
  params ← try_some (try_params x) value.params
  state ← try_some (try_state x) value.state
  ok (record {
    part_idx = value.idx;
    funding_agreement = funding_agreement;
    params = params;
    state = state;
  })

unfoldable pub into_fund_req :
    {E : Type 0} → External → LedgerChannelFundingRequest → Outcome E Perunwire.FundReq
into_fund_req x value = do
  params ← into_params x value.params
  ok (record {
    session_id = [];
    params = some params;
    state = some (into_state x value.state);
    idx = value.part_idx % u32_bound;
    agreement = some (into_balances x value.funding_agreement);
  })

unfoldable pub try_transaction :
    External → Perunwire.Transaction → Outcome ConversionError Transaction
try_transaction x value = do
  signed_state ← Base.ok_or value.state exptected_some
  if not (length value.sigs == participant_count) then err participant_size_missmatch else do
    sigs ← try_sigs value.sigs
    state ← try_state x signed_state
    ok (record { state = state; sigs = sigs })

unfoldable pub into_transaction : External → Transaction → Perunwire.Transaction
into_transaction x value = record { state = some (into_state x value.state); sigs = value.sigs }

unfoldable pub try_adjudicator_req :
    External → Perunwire.AdjudicatorReq → Outcome ConversionError AdjudicatorReq
unfolding try_transaction
try_adjudicator_req x value = do
  params ← try_some (try_params x) value.params
  acc ← try_bytes 20 value.acc
  tx ← try_some (try_transaction x) value.tx
  ok (record { params = params; acc = acc; tx = tx; idx = value.idx; secondary = value.secondary })

unfoldable pub into_adjudicator_req :
    {E : Type 0} → External → AdjudicatorReq → Outcome E Perunwire.AdjudicatorReq
unfolding into_transaction
into_adjudicator_req x value = do
  params ← into_params x value.params
  ok (record {
    params = some params;
    acc = value.acc;
    tx = some (into_transaction x value.tx);
    idx = value.idx % u32_bound;
    secondary = value.secondary;
  })

-- `RegisterReq` and `WithdrawReq` hold nothing but the request.
unfoldable pub try_register_req :
    External → Perunwire.RegisterReq → Outcome ConversionError AdjudicatorReq
try_register_req x value = try_some (try_adjudicator_req x) value.adj_req

unfoldable pub into_register_req :
    {E : Type 0} → External → AdjudicatorReq → Outcome E Perunwire.RegisterReq
into_register_req x value = do
  req ← into_adjudicator_req x value
  ok (record { session_id = []; adj_req = some req })

unfoldable pub try_withdraw_req :
    External → Perunwire.WithdrawReq → Outcome ConversionError AdjudicatorReq
try_withdraw_req x value = try_some (try_adjudicator_req x) value.adj_req

unfoldable pub into_withdraw_req :
    {E : Type 0} → External → AdjudicatorReq → Outcome E Perunwire.WithdrawReq
into_withdraw_req x value = do
  req ← into_adjudicator_req x value
  ok (record { session_id = []; adj_req = some req })

unfoldable pub try_start_watching :
    External
    → Perunwire.StartWatchingLedgerChannelReq
    → Outcome ConversionError StartWatchingLedgerChannelReq
try_start_watching x value =
    if not (length value.sigs == participant_count) then err participant_size_missmatch else do
      sigs ← try_sigs value.sigs
      params ← try_some (try_params x) value.params
      state ← try_some (try_state x) value.state
      ok (record { params = params; state = state; sigs = sigs })

unfoldable pub into_start_watching :
    {E : Type 0}
    → External
    → StartWatchingLedgerChannelReq
    → Outcome E Perunwire.StartWatchingLedgerChannelReq
into_start_watching x value = do
  params ← into_params x value.params
  ok (record {
    session_id = [];
    params = some params;
    state = some (into_state x value.state);
    sigs = value.sigs;
  })

unfoldable pub try_signed_auth :
    Perunwire.SignedWithdrawalAuth → Outcome ConversionError SignedWithdrawalAuth
try_signed_auth value = do
  sig ← try_bytes 65 value.sig
  receiver ← try_bytes 20 value.receiver
  ok (record { sig = sig; receiver = receiver })

unfoldable pub into_signed_auth : SignedWithdrawalAuth → Perunwire.SignedWithdrawalAuth
into_signed_auth value = record { sig = value.sig; receiver = value.receiver }

-- The two lengths give the same error.
unfoldable pub try_watch_request :
    External → Perunwire.WatchRequestMsg → Outcome ConversionError WatchInfo
unfolding try_signed_auth
try_watch_request x value = do
  signed_state ← Base.ok_or value.state exptected_some
  if not (length signed_state.sigs == participant_count)
      then err participant_size_missmatch
      else if not (length value.withdrawal_auths == asset_count)
      then err participant_size_missmatch
      else do
        signatures ← try_sigs signed_state.sigs
        withdrawal_auths ←
            fill try_signed_auth
              (replicate asset_count (record { sig = zero_signature; receiver = replicate 20 0 }))
              value.withdrawal_auths
        params ← try_some (try_params x) signed_state.params
        state ← try_some (try_state x) signed_state.state
        ok (record {
          part_idx = value.participant;
          params = params;
          state = state;
          signatures = signatures;
          withdrawal_auths = withdrawal_auths;
        })

unfoldable pub into_watch_request :
    {E : Type 0} → External → WatchInfo → Outcome E Perunwire.WatchRequestMsg
unfolding into_signed_auth
into_watch_request x value = do
  params ← into_params x value.params
  ok (record {
    participant = value.part_idx % u32_bound;
    state = some (record {
      params = some params;
      state = some (into_state x value.state);
      sigs = value.signatures;
    });
    withdrawal_auths = map into_signed_auth value.withdrawal_auths;
  })

unfoldable pub try_force_close :
    External → Perunwire.ForceCloseRequestMsg → Outcome ConversionError WatchInfo
try_force_close x value = try_some (try_watch_request x) value.latest

unfoldable pub into_force_close :
    {E : Type 0} → External → WatchInfo → Outcome E Perunwire.ForceCloseRequestMsg
into_force_close x value = do
  latest ← into_watch_request x value
  ok (record { channel_id = value.state.id; latest = some latest })
