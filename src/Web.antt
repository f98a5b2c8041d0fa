-- ===== src/Web.antt =====
-- code/handlers.go: the handlers of the web server, from the body or the query of a request to the
-- answer. Routing and encoding are Go's: `json` stands for `json.Marshal`, `atoi` for `strconv.Atoi`,
-- which gives 0 on an error. A panic ends only the request.
pub mod Forms
pub mod Results
pub mod Routes
mod Tests
use blockchain_sybil_attack.Base.{
  ℕ, ◌+◌, Bool, true, false, Option, none, some, List, [], ◌∷◌, ◌++◌, Text, Map, ◌==◌, nat_eq,
  text_eq, codes, if◌then◌else◌, Outcome, ok, panic, index_out_of_range, ◌>>=◌,
}
use blockchain_sybil_attack.Base.Words.{split}
use blockchain_sybil_attack.Base.Int.{ℤ, pos}
use blockchain_sybil_attack.Chain.Platform.{Platform}
use blockchain_sybil_attack.Messages.{Gossiper}
use blockchain_sybil_attack.Node.{Net, StoredRumor, StoredPm, State}
use blockchain_sybil_attack.Routing.{itoa_int, add_peer_from_string, change_own_name}
use blockchain_sybil_attack.Routing.Private.{get_private_msgs_from, send_private_message}
use blockchain_sybil_attack.Gossip.{get_msgs_from}
use blockchain_sybil_attack.Gossip.Spreading.{receives_rumor_from_client}
use blockchain_sybil_attack.Files.Transfer.Fetching.{download_gui}
use blockchain_sybil_attack.Search.{begin_search}
use blockchain_sybil_attack.Dispatch.Clients.{
  Desk, Started, nothing, searching, Handled, quiet, with_fetch, add_file_named,
}

pub record Library : Type 0 where
  pub json : List Text → Text
  pub json_pms : List (Text × List Text) → Text
  pub atoi : Text → ℤ

-- What `ioutil.ReadAll` gives: what was read of the body, and whether there was an error.
pub record Body : Type 0 where
  pub text : Text
  pub failed : Bool

pub record Answer : Type 0 where
  pub state : State
  pub started : Started
  pub written : Text

abbrev pub decoding_error : State → Answer
decoding_error s = record { state = s; started = nothing; written = codes "Decoding error." }

abbrev pub answer : Handled → Text → Answer
answer h written = record { state = h.state; started = h.started; written = written }

-- `strings.Split(s,"=")[1]`.
abbrev pub second : List Text → Outcome Text
second [] = panic index_out_of_range
second (a ∷ []) = panic index_out_of_range
second (a ∷ b ∷ rest) = ok b

unfoldable pub form_value : Text → Outcome Text
form_value s = second (split 61 s)

unfoldable pub rumor_to_string : StoredRumor → Text
unfolding itoa_int
rumor_to_string rumor =
    codes "(" ++ rumor.origin ++ codes " id " ++ itoa_int rumor.id ++ codes ") : " ++ rumor.text

unfoldable pub pm_to_string : StoredPm → Text
pm_to_string pm = pm.origin ++ codes " : " ++ pm.text

unfoldable pub rumors_to_strings : List StoredRumor → List Text
unfolding rumor_to_string
rumors_to_strings [] = []
rumors_to_strings (m ∷ msgs) = rumor_to_string m ∷ rumors_to_strings msgs

unfoldable pub pms_to_strings : List StoredPm → List Text
unfolding pm_to_string
pms_to_strings [] = []
pms_to_strings (m ∷ msgs) = pm_to_string m ∷ pms_to_strings msgs

-- The loop over `state.privateMsgs`.
unfoldable pub pms_of_peers : State → ℤ → Map Text (List StoredPm) → List (Text × List Text)
unfolding pms_to_strings
pms_of_peers s time [] = []
pms_of_peers s time ((peer, pms) ∷ peers) =
    (peer, pms_to_strings (get_private_msgs_from s time peer)) ∷ pms_of_peers s time peers

unfoldable pub addresses : List Gossiper → List Text
addresses [] = []
addresses (g ∷ gossipers) = g.address ∷ addresses gossipers

unfoldable pub keys_of : Map Text Text → List Text
keys_of [] = []
keys_of ((peer, hop) ∷ hops) = peer ∷ keys_of hops

-- The loop of `addPeerHandler`: each `%` and the two bytes after it become a colon. `peer[i+3:]`
-- panics when there are not two.
unfoldable pub percent_to_colon : Text → Outcome Text
percent_to_colon [] = ok []
percent_to_colon (c ∷ []) = if c == 37 then panic index_out_of_range else ok (c ∷ [])
percent_to_colon (c ∷ d ∷ []) =
    if c == 37
    then panic index_out_of_range
    else if d == 37
    then panic index_out_of_range
    else ok (c ∷ d ∷ [])
percent_to_colon (c ∷ d ∷ e ∷ rest) = elim (c == 37) [
  | true ↦ percent_to_colon rest >>= (λ more. ok (58 ∷ more))
  | false ↦ percent_to_colon (d ∷ e ∷ rest) >>= (λ more. ok (c ∷ more))
]

module _ (go : Library) (s : State) where
  -- The handlers of queries; `none` when the parameter is missing.
  unfoldable pub latest_messages_handler : Option Text → Text
  unfolding rumors_to_strings
  latest_messages_handler none = []
  latest_messages_handler (some time) = go.json (rumors_to_strings (get_msgs_from s (go.atoi time)))

  unfoldable pub latest_private_messages_handler : Option Text → Text
  unfolding pms_of_peers
  latest_private_messages_handler none = []
  latest_private_messages_handler (some time) =
      go.json_pms (pms_of_peers s (go.atoi time) s.private_msgs)

  unfoldable pub nodes_handler : Text
  unfolding addresses
  nodes_handler = go.json (addresses s.gossipers)

  unfoldable pub routable_peers_handler : Text
  unfolding keys_of
  routable_peers_handler = go.json (keys_of s.next_hops)

  unfoldable pub get_search_handler : Text
  get_search_handler = go.json s.search_to_retrieve

module _ (s : State) (body : Body) where
  unfoldable pub add_peer_handler : Net → Outcome Answer
  unfolding form_value percent_to_colon add_peer_from_string
  add_peer_handler net = do
    value ← form_value body.text
    peer ← percent_to_colon value
    ok (
        if body.failed
        then decoding_error s
        else answer (quiet (add_peer_from_string net s peer)) (codes "Peer successfully added."))

  unfoldable pub message_handler : Desk → Outcome Answer
  unfolding form_value
  message_handler desk = do
    message ← form_value body.text
    if body.failed then ok (decoding_error s) else do
      t ←
          receives_rumor_from_client desk.seconds desk.random
            (record { origin = []; id = pos 1; text = message; last_ip = none; last_port = none }) s
      ok (answer (quiet t) (codes "Message successfully received."))

  -- `strings.Split(fields[1],"=")[1]`.
  unfoldable pub private_message_handler : Desk → Outcome Answer
  unfolding form_value send_private_message
  private_message_handler desk =
      if body.failed
      then ok (decoding_error s)
      else (first_field (split 38 body.text) >>= (λ field. form_value field >>= (λ dest.
          second (split 38 body.text) >>= (λ other.
            form_value other
            >>= (λ msg. ok (sent (send_private_message desk.seconds s msg dest)))))))
    where
      first_field : List Text → Outcome Text
      first_field [] = panic index_out_of_range
      first_field (f ∷ fields) = ok f

      sent : State × Bool → Answer
      sent (t, status) = answer (quiet t) (
          if status then codes "Message successfully sent." else codes "Message could not be sent.")

  unfoldable pub save_name_handler : Outcome Answer
  unfolding form_value change_own_name
  save_name_handler = do
    new_name ← form_value body.text
    ok (
        if body.failed
        then decoding_error s
        else answer (quiet (change_own_name s new_name)) (codes "Name successfully changed."))

  unfoldable pub share_file_handler : Platform → Desk → Outcome Answer
  unfolding form_value add_file_named
  share_file_handler lib desk = do
    file_name ← form_value body.text
    if body.failed then ok (decoding_error s) else do
      t ← add_file_named lib desk file_name s
      ok (answer (quiet t) (codes "File successfully shared."))

  -- `searchFilesHandler` up to its first receive from `currentSearch`.
  unfoldable pub search_files_handler : Outcome Answer
  unfolding form_value begin_search
  search_files_handler = do
    keywords ← form_value body.text
    ok (
        if body.failed then decoding_error s else record {
          state = begin_search (record s { search_to_retrieve = [] }) 2;
          started = if s.search_in_progress then nothing else searching (split 95 keywords) 2;
          written = [];
        })

-- The loop of `searchFilesHandler` on the matches that were sent: what is left of them, whether the
-- search is complete, and what is written.
unfoldable pub take_matches : List Text → List Text → Text → (List Text × List Text) × (Bool × Text)
take_matches retrieved [] written = ((retrieved, []), (false, written))
take_matches retrieved (match ∷ matches) written = elim (match == codes "SEARCHISCOMPLETED") [
  | true ↦ ((retrieved, matches), (true, written))
  | false ↦ take_matches (retrieved ++ match ∷ []) matches (written ++ match ++ codes "_")
]

-- The goroutine of `DownloadHandler`; `none` when the parameter is missing.
unfoldable pub download_handler : State → ℕ → Option Text → Outcome Handled
unfolding download_gui
download_handler s channel none = ok (quiet s)
download_handler s channel (some file_name) =
    download_gui s file_name channel >>= (λ found. ok (with_fetch s found))
