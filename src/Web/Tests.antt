-- ===== src/Web/Tests.antt =====
-- The theorems about the web server at a request for the peers.
use blockchain_sybil_attack.Base.{refl, false, none, [], text_eqb, codes}
use blockchain_sybil_attack.Base.Int.{pos}
use blockchain_sybil_attack.Web.Routes.{
  Server, Request, Unchanged, serve, unposted_request_changes_nothing,
}
use blockchain_sybil_attack.Samples.{gossiper, net, toy}

abbrev server : Server
server = record {
  net = net;
  lib = toy;
  desk = record { disk = λ name. none; seconds = pos 9; random = 0; channel = 4 };
  go = record { json = λ ts. []; json_pms = λ ps. []; atoi = λ t. pos 0 };
  files = λ path. path;
}

-- A request for the peers.
abbrev asked_nodes : Request
asked_nodes = record {
  method = codes "GET";
  path = codes "/nodes";
  query = λ name. none;
  body = record { text = []; failed = false };
}

unposted_request_changes_nothing_example : Unchanged gossiper (serve server gossiper asked_nodes)
unfolding text_eqb
unposted_request_changes_nothing_example =
    unposted_request_changes_nothing server gossiper asked_nodes refl refl
