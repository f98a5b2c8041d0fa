-- ===== src/Web/Routes.antt =====
-- The routes of webServer in code/handlers.go: the first whose path and method are those of the request
-- serves it, and the last takes all requests that are left.
use blockchain_sybil_attack.Base.{
  ℕ, ◌≡◌, refl, true, false, ◌&&◌, Option, List, All, [], ◌∷◌, Text, ◌==◌, text_eq, codes,
  if◌then◌else◌, Outcome, ok, ◌>>=◌, arith, inl, inr, Bool-cases,
}
use blockchain_sybil_attack.Chain.Platform.{Platform}
use blockchain_sybil_attack.Node.{Net, State}
use blockchain_sybil_attack.Dispatch.Clients.{Desk, quiet}
use blockchain_sybil_attack.Web.{
  Library, Body, Answer, answer, latest_messages_handler, latest_private_messages_handler,
  nodes_handler, routable_peers_handler, add_peer_handler, message_handler, private_message_handler,
  save_name_handler, share_file_handler, search_files_handler, get_search_handler, download_handler,
}

-- `query` gives the first value of a parameter.
pub record Request : Type 0 where
  pub method : Text
  pub path : Text
  pub query : Text → Option Text
  pub body : Body

-- What the handlers are given, and what the file server answers to a path.
pub record Server : Type 0 where
  pub net : Net
  pub lib : Platform
  pub desk : Desk
  pub go : Library
  pub files : Text → Text

-- What `HandleFunc(path, handler).Methods(method)` adds to the router.
pub record Route : Type 0 where
  pub path : Text
  pub method : Text
  pub handler : State → Request → Outcome Answer

abbrev pub written : State → Text → Outcome Answer
written s text = ok (answer (quiet s) text)

-- The goroutine of a download has nothing to write.
abbrev pub downloads : ℕ → State → Request → Outcome Answer
downloads channel s r =
    download_handler s channel (r.query (codes "file")) >>= (λ h. ok (answer h []))

module _ (web : Server) where
  unfoldable pub routes : List Route
  routes =
      record {
        path = codes "/latestmessages";
        method = codes "GET";
        handler = λ s r. written s (latest_messages_handler web.go s (r.query (codes "from")));
      }
      ∷ record {
        path = codes "/latestprivatemessages";
        method = codes "GET";
        handler =
            λ s r. written s (latest_private_messages_handler web.go s (r.query (codes "from")));
      }
      ∷ record {
        path = codes "/nodes";
        method = codes "GET";
        handler = λ s r. written s (nodes_handler web.go s);
      }
      ∷ record {
        path = codes "/routablepeers";
        method = codes "GET";
        handler = λ s r. written s (routable_peers_handler web.go s);
      }
      ∷ record {
        path = codes "/node";
        method = codes "POST";
        handler = λ s r. add_peer_handler s r.body web.net;
      }
      ∷ record {
        path = codes "/message";
        method = codes "POST";
        handler = λ s r. message_handler s r.body web.desk;
      }
      ∷ record {
        path = codes "/privatemessage";
        method = codes "POST";
        handler = λ s r. private_message_handler s r.body web.desk;
      }
      ∷ record {
        path = codes "/id";
        method = codes "POST";
        handler = λ s r. save_name_handler s r.body;
      }
      ∷ record {
        path = codes "/sharefile";
        method = codes "POST";
        handler = λ s r. share_file_handler s r.body web.lib web.desk;
      }
      ∷ record {
        path = codes "/searchfiles";
        method = codes "POST";
        handler = λ s r. search_files_handler s r.body;
      }
      ∷ record {
        path = codes "/getsearch";
        method = codes "GET";
        handler = λ s r. written s (get_search_handler web.go s);
      }
      ∷ record {
        path = codes "/download";
        method = codes "GET";
        handler = downloads web.desk.channel;
      }
      ∷ []

  -- The first route that fits, and else the files.
  unfoldable pub serve_by : List Route → State → Request → Outcome Answer
  serve_by [] s r = written s (web.files r.path)
  serve_by (route ∷ later) s r =
      let rest = serve_by later s r in
      if r.path == route.path && r.method == route.method then route.handler s r else rest

  unfoldable pub serve : State → Request → Outcome Answer
  unfolding routes serve_by
  serve s r = serve_by routes s r

-- The request is answered, and nothing changes or starts.
abbrev pub Unchanged : State → Outcome Answer → Type 0
Unchanged s o = (text : Text) × (o ≡ written s text)

-- A route that changes something is a POST, or the route of downloads.
data Guarded (route : Route) : Type 0 where
  posts : route.method ≡ codes "POST" → Guarded route
  fetches : route.path ≡ codes "/download" → Guarded route
  reads : ((s : State) (r : Request) → Unchanged s (route.handler s r)) → Guarded route

routes-Guarded : (web : Server) → All Guarded (routes web)
unfolding routes
routes-Guarded web = (
  reads (λ s r. (_, refl)),
  (
    reads (λ s r. (_, refl)),
    (
      reads (λ s r. (_, refl)),
      (
        reads (λ s r. (_, refl)),
        (
          posts refl,
          (
            posts refl,
            (
              posts refl,
              (
                posts refl,
                (posts refl, (posts refl, (reads (λ s r. (_, refl)), (fetches refl, tt)))),
              ),
            ),
          ),
        ),
      ),
    ),
  ),
)

module _ (web : Server) (s : State) (r : Request) (unposted : (r.method == codes "POST") ≡ false)
    (other : (r.path == codes "/download") ≡ false) where
  fits-Unchanged :
      (route : Route)
      → Guarded route
      → (r.path == route.path && r.method == route.method) ≡ true
      → Unchanged s (route.handler s r)
  fits-Unchanged route (reads same) fits = same s r
  fits-Unchanged route (posts e) fits = absurd (let here = rw e at fits in ground arith)
  fits-Unchanged route (fetches e) fits = absurd (let here = rw e at fits in ground arith)

  serve_by-Unchanged :
      (table : List Route) → All Guarded table → Unchanged s (serve_by web table s r)
  unfolding serve_by
  serve_by-Unchanged [] all = (_, refl)
  serve_by-Unchanged (route ∷ later) (guarded, all) =
      elim (Bool-cases (r.path == route.path && r.method == route.method)) [
        | inl fits ↦ rw fits (fits-Unchanged route guarded fits)
        | inr no_fit ↦ rw no_fit (serve_by-Unchanged later all)
      ]

  -- No request but a POST and one for /download changes the gossiper or starts anything, and each of
  -- them is answered.
  pub unposted_request_changes_nothing : Unchanged s (serve web s r)
  unfolding serve
  unposted_request_changes_nothing = serve_by-Unchanged (routes web) (routes-Guarded web)
