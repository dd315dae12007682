-- ===== src/Subgraph/Transfer.antt =====
-- packages/nouns-subgraph/src/nouns-erc-721.ts: `handleTransfer`, part by part.
pub mod Accounts
pub mod Holdings
pub mod Ownership
pub mod Aggregates
pub mod Holders
pub mod Delegates
use composable_nouns_monorep.Common.{
  Option, none, some, String, ◌<>◌, str_eq, [], ◌∷◌, ◌++◌, Bool, true, not, ◌&&◌, if◌then◌else◌, ℤ,
  pos, ◌+ℤ◌, ◌-ℤ◌, ltb_ℤ, eqb_ℤ, filter,
}
use composable_nouns_monorep.Subgraph.Host.{GraphNode}
use composable_nouns_monorep.Subgraph.Events.{Transfer, noun_key, option_or}
use composable_nouns_monorep.Subgraph.Schema.{
  Account, Noun, DelegationEvent, TransferEvent, Governance, Generated,
}
use composable_nouns_monorep.Subgraph.Store.{
  Store, zero_address, save_account, save_delegate, save_noun, save_delegation_event,
  save_transfer_event, save_governance, log_error, get_or_create_account, get_or_create_delegate,
  get_governance_entity,
}

module _ (G : GraphNode) (N : Generated G) where
  pub transfer_event : Transfer G → Account → Account → TransferEvent
  transfer_event e from_holder to_holder =
      let id = G.to_hex e.origin.transaction_hash <> "_" <> noun_key G e.token_id in
      record (N.new_transfer_event id) {
        id = id;
        block_number = e.origin.block_number;
        block_timestamp = e.origin.block_timestamp;
        noun = noun_key G e.token_id;
        previous_holder = from_holder.id;
        new_holder = to_holder.id;
      }

  -- The sender's delegate no longer represents the Noun.
  unfoldable pub remove_represented : Option String → String → Store G → Store G
  unfolding get_or_create_delegate
  remove_represented none noun_id s = s
  remove_represented (some id) noun_id s =
      let (d, s') = get_or_create_delegate G N id s in
      save_delegate G
        (record d { nouns_represented = filter (λ n. not (str_eq n noun_id)) d.nouns_represented })
        s'

  -- How a change of balance moves the number of holders, in the aggregates at hand.
  unfoldable pub count_holder : ℤ → ℤ → Governance → Governance
  count_holder previous balance g =
      if eqb_ℤ balance (pos 0) && ltb_ℤ (pos 0) previous
      then record g { current_token_holders = g.current_token_holders -ℤ pos 1 }
      else if ltb_ℤ (pos 0) balance && eqb_ℤ previous (pos 0)
      then record g { current_token_holders = g.current_token_holders +ℤ pos 1 }
      else g

  -- The aggregates are saved where the number of holders moved.
  abbrev holder_moved : ℤ → ℤ → Bool
  holder_moved previous balance =
      if eqb_ℤ balance (pos 0) && ltb_ℤ (pos 0) previous
      then true
      else ltb_ℤ (pos 0) balance && eqb_ℤ previous (pos 0)

  abbrev save_if : Bool → Governance → Store G → Store G
  save_if moved g s = if moved then save_governance G g s else s

  -- The account of a sender other than the zero address, after the Noun has left it.
  unfoldable pub debit : String → Account → Account
  debit noun_id a =
      let balance = a.token_balance_raw -ℤ pos 1 in
      record a {
        token_balance_raw = balance;
        token_balance = balance;
        nouns = filter (λ n. not (str_eq n noun_id)) a.nouns;
        delegate =
            if eqb_ℤ balance (pos 0) && ltb_ℤ (pos 0) a.token_balance_raw then none else a.delegate;
      }

  abbrev log_negative : Account → Store G → Store G
  log_negative a s =
      if ltb_ℤ a.token_balance_raw (pos 0)
      then log_error G "Negative balance on holder {} with balance {}"
          (a.id ∷ G.to_string a.token_balance_raw ∷ []) s
      else s

  -- The part `fromHolder` of `handleTransfer`.
  unfoldable pub send : Transfer G → Account → Governance → Store G → Account × Governance × Store G
  send e from_holder g s =
      if str_eq (G.to_hex e.sender) zero_address
      then (let g' = record g { total_token_holders = g.total_token_holders +ℤ pos 1 } in
          (from_holder, g', save_governance G g' s))
      else let noun_id = noun_key G e.token_id in
        let sender = debit noun_id from_holder in
        let g' = count_holder from_holder.token_balance_raw sender.token_balance_raw g in
        let s1 = log_negative sender (remove_represented from_holder.delegate noun_id s) in
        let s2 =
          save_if (holder_moved from_holder.token_balance_raw sender.token_balance_raw) g' s1 in
        (sender, g', save_account G sender s2)

  -- A Noun that goes to the zero address is burned.
  unfoldable pub burn : Transfer G → Governance → Store G → Governance × Store G
  burn e g s =
      if str_eq (G.to_hex e.receiver) zero_address
      then (let g' = record g { total_token_holders = g.total_token_holders -ℤ pos 1 } in
          (g', save_governance G g' s))
      else (g, s)

  pub transfer_delegation : Transfer G → Account → Account → DelegationEvent
  transfer_delegation e from_holder to_holder =
      let id = G.to_hex e.origin.transaction_hash <> "_" <> noun_key G e.token_id in
      record (N.new_delegation_event id) {
        id = id;
        block_number = e.origin.block_number;
        block_timestamp = e.origin.block_timestamp;
        noun = noun_key G e.token_id;
        previous_delegate = option_or from_holder.delegate from_holder.id;
        new_delegate = option_or to_holder.delegate to_holder.id;
      }

  -- The receiver's delegate represents the Noun.
  unfoldable pub add_represented : String → String → Store G → Store G
  unfolding get_or_create_delegate
  add_represented id noun_id s =
      let (d, s') = get_or_create_delegate G N id s in
      save_delegate G (record d { nouns_represented = d.nouns_represented ++ (noun_id ∷ []) }) s'

  -- The account of a receiver, after the Noun has reached it.
  unfoldable pub credit : String → Account → Account
  credit noun_id a =
      let balance = a.token_balance_raw +ℤ pos 1 in
      let total = a.total_tokens_held_raw +ℤ pos 1 in
      record a {
        token_balance_raw = balance;
        token_balance = balance;
        total_tokens_held_raw = total;
        total_tokens_held = total;
        nouns = a.nouns ++ (noun_id ∷ []);
        delegate =
            if eqb_ℤ balance (pos 0) && ltb_ℤ (pos 0) a.token_balance_raw
            then a.delegate
            else if ltb_ℤ (pos 0) balance && eqb_ℤ a.token_balance_raw (pos 0)
            then some a.id
            else a.delegate;
      }

  abbrev load_or_new_noun : String → G.Table Noun → Noun
  load_or_new_noun noun_id nouns = elim (G.load nouns noun_id) [
    | some noun ↦ noun
    | none ↦ record (N.new_noun noun_id) { id = noun_id }
  ]

  -- The end of `handleTransfer`, from `toHolderPreviousBalance`.
  unfoldable pub receive : Transfer G → Account → Governance → Store G → Store G
  receive e to_holder g s =
      let noun_id = noun_key G e.token_id in
      let receiver = credit noun_id to_holder in
      let g' = count_holder to_holder.token_balance_raw receiver.token_balance_raw g in
      let s1 = save_if (holder_moved to_holder.token_balance_raw receiver.token_balance_raw) g' s in
      let s2 =
        save_noun G (record (load_or_new_noun noun_id s1.nouns) { owner = receiver.id }) s1 in
      save_account G receiver s2

  -- `handleTransfer` up to `toHolderPreviousBalance`. The two holders and the aggregates are
  -- read first: what later calls change in the store does not reach these copies.
  unfoldable pub hand_over : Transfer G → Store G → Account × Governance × Store G
  hand_over e s =
      let (from_holder, s1) = get_or_create_account G N (G.to_hex e.sender) s in
      let (to_holder, s2) = get_or_create_account G N (G.to_hex e.receiver) s1 in
      let governance = get_governance_entity G N s2 in
      let s3 = save_transfer_event G (transfer_event e from_holder to_holder) s2 in
      let (from_holder', g1, s4) = send e from_holder governance s3 in
      let (g2, s5) = burn e g1 s4 in
      let s6 = save_delegation_event G (transfer_delegation e from_holder' to_holder) s5 in
      let s7 =
        add_represented (option_or to_holder.delegate to_holder.id) (noun_key G e.token_id) s6 in
      (to_holder, g2, s7)

  unfoldable pub handle_transfer : Transfer G → Store G → Store G
  handle_transfer e s =
      let (to_holder, governance, s') = hand_over e s in receive e to_holder governance s'
