-- ===== src/Example.antt =====
-- examples/go-integration.rs: a program that opens a channel with another participant, updates and
-- closes it. What it talks to is the module `net`, the record `Net`; the module of a build without a
-- network names messages that the protobuf files do not define, and is left out.
-- The messages for the user are left out.
pub mod Interface
pub mod Stream
pub mod Responses
use fork_perun_rs.Base.{
  ℕ, Bool, true, false, List, [], ◌∷◌, Option, none, some, Outcome, ok, panic, unwrap, get_elem?,
  set, if◌then◌else◌,
}
use fork_perun_rs.Base.Results
use fork_perun_rs.Effects.{Act, ◌>>=◌, ◌>>◌, lift, pure}
use fork_perun_rs.External.{External}
use fork_perun_rs.Types.{Address}
use fork_perun_rs.Sig.{Signer, new_signer}
use fork_perun_rs.Payment.{Asset, Balances, State, make_next_state}
use fork_perun_rs.Messages.{Identity, Peers, LedgerChannelProposal}
use fork_perun_rs.Bus.{Sent}
use fork_perun_rs.Wire.{expect}
use fork_perun_rs.Wire.Envelope.{
  Envelope, EnvelopeMsg, Message, ledger_channel_proposal_acc_msg, channel_proposal_rej_msg,
  channel_update_acc_msg, channel_update_rej_msg,
}
use fork_perun_rs.Wire.Encoding.{Codec, SentBytes, send_bytes}
use fork_perun_rs.Wire.Participants.{try_proposal_acc, try_update_accepted}
use fork_perun_rs.Channel.Types.{PerunClient, ActiveChannel, ChannelUpdate}
use fork_perun_rs.Channel.Proposal.{
  ProposedChannel, send_handshake_msg, propose_channel, participant_accepted,
}
use fork_perun_rs.Channel.Proposal as Proposal
use fork_perun_rs.Channel.AgreedUpon.{AgreedUponChannel, mark_funded, sign, add_signature}
use fork_perun_rs.Channel.AgreedUpon as AgreedUpon
use fork_perun_rs.Channel.Active as Active
use fork_perun_rs.Channel.Update as Update
use fork_perun_rs.Demo.Application.{Rng}
use fork_perun_rs.Example.Interface.{Run, Net, peer_0, peer_1, get_peers}

-- How `main` ends.
pub data Finish : Type 0 where
  done proposal_rejected signature_rejected : Finish

abbrev normal_close : Bool
normal_close = true

abbrev send_dispute : Bool
send_dispute = false

-- 10^18 for each participant.
abbrev init_balance : Balances
init_balance = (1000000000000000000 ∷ 1000000000000000000 ∷ []) ∷ []

-- `balances[0][0] += 10`, then `balances[0][1] -= 10`.
unfoldable pub shift_balance : {E : Type 0} → External → Balances → Outcome E Balances
shift_balance x bals = Results.◌>>=◌ (unwrap (get_elem? bals 0)) (λ row.
    Results.◌>>=◌ (unwrap (get_elem? row 0)) (λ own.
      Results.◌>>=◌ (unwrap (x.u256_add own 10)) (λ raised.
        Results.◌>>=◌ (unwrap (get_elem? (set row 0 raised) 1)) (λ other.
          Results.◌>>=◌ (unwrap (x.u256_sub other 10))
            (λ lowered. ok (set bals 0 (set (set row 0 raised) 1 lowered)))))))

module _ (x : External) (envelopes : Codec Envelope) (messages : Codec Message) (net : Net) where
  -- The bus is in a `ProtoBufEncodingLayer`.
  unfoldable pub send_calls : List Sent → Run net.Bus (Unit {0})
  send_calls [] = pure tt
  send_calls (call ∷ rest) = do
    sent ← lift (send_bytes x messages envelopes call)
    net.deliver sent
    send_calls rest

  -- A method of the library, whose result is unwrapped.
  unfoldable pub call : {S E A : Type 0} → S × Outcome E A × List Sent → Run net.Bus (S × A)
  unfolding send_calls
  call (s, r, sent) = do send_calls sent; a ← lift (expect r); pure (s, a)

  -- The match of `handle_update_response`.
  unfoldable pub on_update_response :
      Option EnvelopeMsg → ActiveChannel → ChannelUpdate → Run net.Bus ActiveChannel
  unfolding call
  on_update_response (some (channel_update_acc_msg m)) ch update = do
    msg ← lift (expect (try_update_accepted m))
    collected ← call (Update.participant_accepted x ch 1 msg update)
    applied ← call (Update.apply collected.0 ch)
    pure applied.0
  on_update_response (some (channel_update_rej_msg m)) ch update = pure ch
  on_update_response _ ch update = lift panic

  unfoldable pub handle_update_response : ActiveChannel → ChannelUpdate → Run net.Bus ActiveChannel
  unfolding on_update_response
  handle_update_response ch update = do
    envelope ← net.recv_envelope
    on_update_response envelope.msg ch update

  -- `if NORMAL_CLOSE { … }` and `if SEND_DISPUTE { … }`.
  unfoldable pub close : ActiveChannel → Run net.Bus ActiveChannel
  unfolding call handle_update_response
  close ch =
      if normal_close
      then (do
        update ← call (Active.close_normal x ch tt)
        closing ← handle_update_response ch update.1
        closed ← call (Active.force_close closing tt)
        _ ← net.recv_message
        pure closed.1)
      else pure ch

  unfoldable pub dispute : ActiveChannel → Run net.Bus Finish
  unfolding call
  dispute ch =
      if send_dispute
      then (do _ ← call (Active.force_close ch tt); _ ← net.recv_message; pure done)
      else pure done

  -- The update that main proposes once the channel is open.
  unfoldable pub update_channel : ActiveChannel → Run net.Bus ActiveChannel
  unfolding shift_balance call handle_update_response
  update_channel ch = do
    let next = make_next_state ch.state
    bals ← lift (shift_balance x next.outcome.balances)
    update ← call (
        Active.update x ch
          (record next { outcome = record { assets = next.outcome.assets; balances = bals } }) tt)
    handle_update_response ch update.1

  -- From `channel.build()` of a channel with all signatures to the end.
  unfoldable pub open_channel : AgreedUponChannel → Run net.Bus Finish
  unfolding call update_channel close dispute
  open_channel agreed = do
    signed ← call (AgreedUpon.build agreed tt)
    _ ← net.recv_message
    updated ← update_channel (mark_funded signed.1)
    closed ← close updated
    dispute closed

  -- The match on the answer to the own signature.
  unfoldable pub on_signature : Option EnvelopeMsg → AgreedUponChannel → Run net.Bus Finish
  unfolding call open_channel
  on_signature (some (channel_update_acc_msg m)) agreed = do
    msg ← lift (expect (try_update_accepted m))
    complete ← call (add_signature x msg agreed)
    open_channel complete.0
  on_signature (some (channel_update_rej_msg m)) agreed = pure signature_rejected
  on_signature _ agreed = lift panic

  -- Phase 2: signing the initial state.
  unfoldable pub sign_initial : ProposedChannel → Run net.Bus Finish
  unfolding call on_signature
  sign_initial accepted = do
    agreed ← lift (expect (Proposal.build x accepted))
    signing ← call (sign x agreed)
    envelope ← net.recv_envelope
    on_signature envelope.msg signing.0

  -- The match on the answer to the proposal.
  unfoldable pub on_response : Option EnvelopeMsg → ProposedChannel → Run net.Bus Finish
  unfolding call sign_initial
  on_response (some (ledger_channel_proposal_acc_msg m)) proposed = do
    msg ← lift (expect (try_proposal_acc m))
    accepted ← call (participant_accepted 1 msg proposed)
    sign_initial accepted.0
  on_response (some (channel_proposal_rej_msg m)) proposed = pure proposal_rejected
  on_response _ proposed = lift panic

  module _ (rng : Rng) where
    unfoldable pub proposal_of : Signer → rng.StdRng → LedgerChannelProposal
    proposal_of signer r =
        let (proposal_id, after) = rng.gen r in
        let (nonce_share, _) = rng.gen after in
        record {
          proposal_id = proposal_id;
          challenge_duration = 5;
          nonce_share = nonce_share;
          init_bals = record {
            assets = record { holder = net.config.eth_holder } ∷ [];
            balances = init_balance;
          };
          funding_agreement = init_balance;
          participant = signer.addr;
          peers = get_peers;
        }

    -- With the random number generator that `get_rng` gives.
    unfoldable pub main : rng.StdRng → Run net.Bus Finish
    unfolding call proposal_of on_response
    main r = do
      let signer = new_signer x []
      let client : PerunClient = record { signer = signer }
      _ ← call (send_handshake_msg {E = ⊥} peer_0 peer_1 tt)
      _ ← net.recv_envelope
      proposed ←
          call (propose_channel client (proposal_of signer r) net.config.withdraw_receiver tt)
      envelope ← net.recv_envelope
      on_response envelope.msg proposed.1
