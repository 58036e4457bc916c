-- ===== src/Wire/Requests/Laws.antt =====
-- What of the messages of src/messages/funding_request.rs and watch_request.rs is read as it was
-- written.
use fork_perun_rs.Base.{ℕ, ◌<◌, ◌%◌, ◌≡◌, refl, List, [], ◌∷◌, ok, ◌>>=◌, length, some}
use fork_perun_rs.Base.Inversion.{bind-ok}
use fork_perun_rs.Wire.Perunwire
use fork_perun_rs.External.{External, IsLawful, u256_bound}
use fork_perun_rs.Types.{Signature}
use fork_perun_rs.Payment.{Params}
use fork_perun_rs.Payment.Laws.{IsShapedParams}
use fork_perun_rs.Messages.{
  ConversionError, LedgerChannelFundingRequest, Transaction, AdjudicatorReq,
  StartWatchingLedgerChannelReq, SignedWithdrawalAuth, WatchInfo,
}
use fork_perun_rs.Wire.{u32_bound, try_some, fill}
use fork_perun_rs.Wire.Payments.{zero_address}
use fork_perun_rs.Wire.Payments.Laws.{IsNative, try_state-into_state}
use fork_perun_rs.Wire.Payments.Parameters.{
  try_bytes-sized, try_balances-into_balances, try_params-into_params,
}
use fork_perun_rs.Wire.Requests.{
  try_sigs, try_fund_req, into_fund_req, try_transaction, into_transaction, try_adjudicator_req,
  into_adjudicator_req, try_register_req, into_register_req, try_withdraw_req, into_withdraw_req,
  try_start_watching, into_start_watching, try_signed_auth, into_signed_auth, try_watch_request,
  into_watch_request, try_force_close, into_force_close,
}

-- The parameters without the app, which is not sent.
abbrev pub without_app : Params → Params
without_app p = record p { app = zero_address }

-- Two signatures of 65 bytes.
pub record IsSigned (sigs : List Signature) : Type 0 where
  pub first : Signature
  pub second : Signature
  pub first_size : length first ≡ 65
  pub second_size : length second ≡ 65
  pub two_signatures : sigs ≡ first ∷ second ∷ []

signed : (sigs : List Signature) → IsSigned sigs → (length sigs ≡ 2) × (try_sigs sigs ≡ ok sigs)
unfolding fill
signed sigs s = (
  rw s.two_signatures,
  rw s.two_signatures (
      rw (try_bytes-sized 65 s.first s.first_size)
        (rw (try_bytes-sized 65 s.second s.second_size))),
)

module _ (x : External) (lawful : IsLawful x) where
  -- For lawful crates and a state of the asset zero: a funding request is read as it was written, but
  -- for the app, which is replaced by zeros, and the index, which is cut off at 32 bits.
  pub try_fund_req-into_fund_req :
      (r : LedgerChannelFundingRequest) (own other : ℕ)
      → IsShapedParams r.params
      → r.params.nonce < u256_bound
      → IsNative r.state
      → own < u256_bound
      → other < u256_bound
      → r.funding_agreement ≡ (own ∷ other ∷ []) ∷ []
      → into_fund_req x r >>= try_fund_req x
        ≡ ok (record r { part_idx = r.part_idx % u32_bound; params = without_app r.params })
  unfolding into_fund_req try_fund_req try_some
  try_fund_req-into_fund_req r own other shaped small native h1 h2 agreed =
      let (w, written, _, read) = try_params-into_params x lawful r.params shaped small in
      rw written (
        rw agreed (
          rw (try_balances-into_balances x lawful own other h1 h2)
            (rw read (rw (try_state-into_state x lawful r.state native)))))

  -- For lawful crates and a state of the asset zero: a request to watch a channel is read as it was
  -- written, but for the app, which is replaced by zeros.
  pub try_start_watching-into_start_watching :
      (r : StartWatchingLedgerChannelReq)
      → IsShapedParams r.params
      → r.params.nonce < u256_bound
      → IsNative r.state
      → IsSigned r.sigs
      → into_start_watching x r >>= try_start_watching x
        ≡ ok (record r { params = without_app r.params })
  unfolding into_start_watching try_start_watching try_some
  try_start_watching-into_start_watching r shaped small native sigs =
      let (w, written, _, read) = try_params-into_params x lawful r.params shaped small in
      let (two, same) = signed r.sigs sigs in
      rw written (rw two (rw same (rw read (rw (try_state-into_state x lawful r.state native)))))

  try_transaction-into_transaction :
      (t : Transaction)
      → IsNative t.state
      → IsSigned t.sigs
      → try_transaction x (into_transaction x t) ≡ ok t
  unfolding try_transaction into_transaction
  try_transaction-into_transaction t native sigs =
      let (two, same) = signed t.sigs sigs in
      rw two (rw same (rw (try_state-into_state x lawful t.state native)))

  try_adjudicator_req-into_adjudicator_req :
      (r : AdjudicatorReq)
      → IsShapedParams r.params
      → r.params.nonce < u256_bound
      → length r.acc ≡ 20
      → IsNative r.tx.state
      → IsSigned r.tx.sigs
      → into_adjudicator_req x r >>= try_adjudicator_req x
        ≡ ok (record r { params = without_app r.params; idx = r.idx % u32_bound })
  unfolding into_adjudicator_req try_adjudicator_req try_some
  try_adjudicator_req-into_adjudicator_req r shaped small sized native sigs =
      let (w, written, _, read) = try_params-into_params x lawful r.params shaped small in
      rw written (
        rw read (
          rw (try_bytes-sized 20 r.acc sized)
            (rw (try_transaction-into_transaction r.tx native sigs))))

  -- For lawful crates and a state of the asset zero: a request to register or to withdraw is read as
  -- it was written, but for the app, which is replaced by zeros, and the index, which is cut off at
  -- 32 bits.
  pub adjudicator_requests-read :
      (r : AdjudicatorReq)
      → IsShapedParams r.params
      → r.params.nonce < u256_bound
      → length r.acc ≡ 20
      → IsNative r.tx.state
      → IsSigned r.tx.sigs
      → (into_register_req x r >>= try_register_req x
          ≡ ok (record r { params = without_app r.params; idx = r.idx % u32_bound }))
        × (into_withdraw_req x r >>= try_withdraw_req x
            ≡ ok (record r { params = without_app r.params; idx = r.idx % u32_bound }))
  unfolding into_register_req try_register_req into_withdraw_req try_withdraw_req try_some
  adjudicator_requests-read r shaped small sized native sigs =
      let (w, written, read) =
        bind-ok (into_adjudicator_req x r) (try_adjudicator_req x)
          (try_adjudicator_req-into_adjudicator_req r shaped small sized native sigs) in
      (rw written read, rw written read)

  try_watch_request-into_watch_request :
      (r : WatchInfo) (auth : SignedWithdrawalAuth)
      → IsShapedParams r.params
      → r.params.nonce < u256_bound
      → IsNative r.state
      → IsSigned r.signatures
      → r.withdrawal_auths ≡ auth ∷ []
      → length auth.sig ≡ 65
      → length auth.receiver ≡ 20
      → into_watch_request x r >>= try_watch_request x
        ≡ ok (record r { part_idx = r.part_idx % u32_bound; params = without_app r.params })
  unfolding into_watch_request try_watch_request into_signed_auth try_signed_auth try_some fill
  try_watch_request-into_watch_request r auth shaped small native sigs one h1 h2 =
      let (w, written, _, read) = try_params-into_params x lawful r.params shaped small in
      let (two, same) = signed r.signatures sigs in
      rw written (
        rw two (
          rw same (
            rw one (
              rw (try_bytes-sized 65 auth.sig h1) (
                rw (try_bytes-sized 20 auth.receiver h2)
                  (rw read (rw (try_state-into_state x lawful r.state native))))))))

  -- For lawful crates, a state of the asset zero and one withdrawal authorization: a request for a
  -- dispute names the state's channel, and is read as it was written, but for the app, which is
  -- replaced by zeros, and the index, which is cut off at 32 bits.
  pub try_force_close-into_force_close :
      (r : WatchInfo) (auth : SignedWithdrawalAuth)
      → IsShapedParams r.params
      → r.params.nonce < u256_bound
      → IsNative r.state
      → IsSigned r.signatures
      → r.withdrawal_auths ≡ auth ∷ []
      → length auth.sig ≡ 65
      → length auth.receiver ≡ 20
      → (w : Perunwire.ForceCloseRequestMsg) × (into_force_close {E = ConversionError} x r ≡ ok w)
        × (w.channel_id ≡ r.state.id)
        × (try_force_close x w
            ≡ ok (record r { part_idx = r.part_idx % u32_bound; params = without_app r.params }))
  unfolding into_force_close try_force_close try_some
  try_force_close-into_force_close r auth shaped small native sigs one h1 h2 =
      let (w, written, read) =
        bind-ok (into_watch_request x r) (try_watch_request x)
          (try_watch_request-into_watch_request r auth shaped small native sigs one h1 h2) in
      (record { channel_id = r.state.id; latest = some w }, rw written, refl, read)
