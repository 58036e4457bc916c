-- ===== src/Channel/AgreedUpon/Laws.antt =====
-- `add_signature` and `build` of src/channel/agreed_upon.rs.
use fork_perun_rs.Base.{
  map, suc, ◌+◌, ℕ, ◌≡◌, ◌∙◌, refl, ap, sym, List, [], ◌∷◌, Option, none, some, ok, panic,
  get_elem?, ltb, Bool-cases, inl, inr, bytes_eq, bytes_eq_iff, length, set, arith, true, false,
  ==_iff,
}
use fork_perun_rs.Base.Inversion.{
  bind-ok, map_err-ok, unwrap-ok, ok_or-ok, guard-ok, ok-injective, ok≢panic,
}
use fork_perun_rs.Effects.Inversion as Act
use fork_perun_rs.Effects.{resume}
use fork_perun_rs.External.{External}
use fork_perun_rs.Types.{Address, Signature}
use fork_perun_rs.Messages.{LedgerChannelUpdateAccepted, watch_request, fund_req}
use fork_perun_rs.Bus.{Sent, to_watcher, to_funder}
use fork_perun_rs.Channel.Types.{assign}
use fork_perun_rs.Channel.Active as Active
use fork_perun_rs.Channel.Active.{watch_info}
use fork_perun_rs.Channel.Active.Laws.{IsSignatureOf}
use fork_perun_rs.Channel.AgreedUpon.{
  AgreedUponChannel, SignedChannel, find_from, add_if_missing, add_signature, collect_from, build,
  mark_funded, store_signature,
}

-- The index that is found is that of the address, and no earlier one has it.
pub find_from-some :
    (i : ℕ) (addrs : List Address) (a : Address) (k : ℕ)
    → find_from i addrs a ≡ some k
    → (j : ℕ) × (k ≡ i + j) × (get_elem? addrs j ≡ some a)
unfolding find_from
find_from-some i [] a k h = absurd (ground arith)
find_from-some i (b ∷ addrs) a k h = elim (Bool-cases (bytes_eq b a)) [
  | inl same ↦
      (0, some_injective k i (sym h ∙ rw same) ∙ omega arith, ap some ((bytes_eq_iff b a).0 same))
  | inr other ↦
      let (j, e, found) = find_from-some (suc i) addrs a k (sym (rw other) ∙ h) in
      (suc j, omega (arith, e), found)
]
  where
    some_injective : (a b : ℕ) → some a ≡ some b → a ≡ b
    some_injective a b h = ground arith

add_if_missing-ok :
    (i : ℕ) (sig : Signature) (slot : Option Signature) (ch : AgreedUponChannel)
    {ch' : AgreedUponChannel} {sent : List Sent}
    → add_if_missing i sig slot ch ≡ (ch', ok tt, sent)
    → (slot ≡ none)
      × (ch' ≡ record ch { signatures = set ch.signatures i (some sig) })
      × (sent ≡ [])
unfolding add_if_missing store_signature assign resume
add_if_missing-ok i sig (some _) ch h = absurd (ground arith)
add_if_missing-ok i sig none ch h = elim (Bool-cases (ltb i (length ch.signatures))) [
  | inl y ↦
      let stored = sym h ∙ storing i sig ch y in (refl, ap (λ r. r.0) stored, ap (λ r. r.2) stored)
  | inr n ↦ absurd (ok≢panic _ (sym (ap (λ r. r.1) h) ∙ panicking i sig ch n))
]
  where
    storing :
        (i : ℕ) (sig : Signature) (ch : AgreedUponChannel)
        → ltb i (length ch.signatures) ≡ true
        → add_if_missing i sig none ch
          ≡ (record ch { signatures = set ch.signatures i (some sig) }, ok tt, [])
    storing i sig ch y = rw y

    panicking :
        (i : ℕ) (sig : Signature) (ch : AgreedUponChannel)
        → ltb i (length ch.signatures) ≡ false
        → (add_if_missing i sig none ch).1 ≡ panic
    panicking i sig ch n = rw n

-- If `add_signature` succeeds, the message is about the initial state of the channel, the
-- signature is that of a participant, and the participant's slot, which was empty, is all that
-- changes. Nothing is sent.
pub add_signature-ok :
    (x : External) (msg : LedgerChannelUpdateAccepted) (ch : AgreedUponChannel)
    {ch' : AgreedUponChannel} {sent : List Sent}
    → add_signature x msg ch ≡ (ch', ok tt, sent)
    → (msg.channel ≡ ch.init_state.id)
      × (msg.version ≡ 0)
      × ((i : ℕ) × (participant : Address) × (get_elem? ch.params.participants i ≡ some participant)
          × IsSignatureOf x participant ch.init_state msg.sig
          × (get_elem? ch.signatures i ≡ some none)
          × (ch' ≡ record ch { signatures = set ch.signatures i (some msg.sig) }))
      × (sent ≡ [])
unfolding add_signature IsSignatureOf
add_signature-ok x msg ch h =
    let (_, e1, h1) = Act.lift-ok _ _ (Act.pure-ok ch _ h) in
    let (_, e2, h2) = Act.lift-ok _ _ h1 in
    let (hash, e3, h3) = Act.lift-ok _ _ h2 in
    let (signer, e4, h4) = Act.lift-ok _ _ h3 in
    let (i, e5, h5) = Act.lift-ok _ _ h4 in
    let (slot, e6, h6) = Act.lift-ok _ _ h5 in
    let (empty, changed, silent) = add_if_missing-ok i msg.sig slot ch h6 in
    let (j, same, found) = find_from-some 0 ch.params.participants signer i (ok_or-ok _ _ e5) in
    (
      (bytes_eq_iff _ _).0 (guard-ok _ _ e1),
      (==_iff _ _).0 (guard-ok _ _ e2),
      (
        i,
        signer,
        ap (get_elem? ch.params.participants) (same ∙ omega arith) ∙ found,
        (hash, map_err-ok _ _ e3, map_err-ok _ _ e4),
        unwrap-ok _ e6 ∙ ap some empty,
        changed,
      ),
      silent,
    )

collect_from-ok :
    (i : ℕ) (slots : List (Option Signature)) (sigs : List Signature)
    → collect_from i slots ≡ ok sigs
    → slots ≡ map some sigs
unfolding collect_from
collect_from-ok i [] sigs h = ap (map some) (ok-injective _ _ h)
collect_from-ok i (none ∷ slots) sigs h = absurd (ground arith)
collect_from-ok i (some s ∷ slots) sigs h =
    let (rest, e, h1) = bind-ok _ _ h in
    ap (◌∷◌ (some s)) (collect_from-ok (suc i) slots rest e) ∙ ap (map some) (ok-injective _ _ h1)

-- If `build` succeeds, every participant has signed, and exactly two requests were sent: to watch
-- the channel from its initial state with these signatures, and to fund it. The channel that
-- becomes active when it is funded has that state and the signatures.
pub build-ok :
    {S : Type 0} (s : S) {t : S} (ch : AgreedUponChannel) {signed : SignedChannel}
    {sent : List Sent}
    → build ch s ≡ (t, ok signed, sent)
    → ((sigs : List Signature) × (ch.signatures ≡ map some sigs)
        × ((mark_funded signed).state ≡ ch.init_state)
        × ((mark_funded signed).params ≡ ch.params)
        × ((mark_funded signed).signatures ≡ sigs))
      × (sent
          ≡ to_watcher (watch_request (watch_info (mark_funded signed)))
            ∷ to_funder (
                fund_req (record {
                  part_idx = ch.part_idx;
                  funding_agreement = ch.funding_agreement;
                  params = ch.params;
                  state = ch.init_state;
                }))
            ∷ [])
unfolding build mark_funded resume Active.new
build-ok s ch h =
    let (sigs, e1, h1) = Act.lift-ok _ _ h in
    let same = ok-injective _ _ (ap (λ r. r.1) (sym h1)) in
    (
      (
        sigs,
        collect_from-ok 0 ch.signatures sigs (map_err-ok _ _ e1),
        ap (λ c. c.inner.state) same,
        ap (λ c. c.inner.params) same,
        ap (λ c. c.inner.signatures) same,
      ),
      ap (λ r. r.2) (sym h1)
          ∙ ap
              (λ (c : SignedChannel).
                to_watcher (watch_request (watch_info c.inner))
                ∷ to_funder (
                    fund_req (record {
                      part_idx = ch.part_idx;
                      funding_agreement = ch.funding_agreement;
                      params = ch.params;
                      state = ch.init_state;
                    }))
                ∷ [])
              (sym same),
    )
