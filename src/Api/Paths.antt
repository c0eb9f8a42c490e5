-- ===== src/Api/Paths.antt =====
-- The URLs of internal/api/client.go: a command's id, which the server chooses, stays in its place.
use sentnodes_agent.Base.{some, none, ◌++◌, All, ◌≡◌, refl}
use sentnodes_agent.Base.Escape.{path_escape}
use sentnodes_agent.Base.Escape.Laws.{
  between, read_path, read_path-path_escape, IsSegmentByte, path_escape-IsSegmentByte,
}
use sentnodes_agent.Base.Got.{got}
use sentnodes_agent.Base.Text.{Text, codes}
use sentnodes_agent.Api.{Server, ApiResult, request_of, send_made, post, do_request, send_result}
use sentnodes_agent.Bech32.Regroup.{IsByte}

-- A call sends one request, with the URL of the command's result, where the id is one segment that
-- stands for it.
pub record ReportsOn (server : Server) (base token id body : Text) (r : ApiResult (Unit {0}))
    : Type 0 where
  pub segment : Text
  pub stays : All IsSegmentByte segment
  pub names : read_path between segment ≡ id
  pub sends :
      let url = base ++ (codes "/v1/agent/commands/" ++ (segment ++ codes "/result")) in
      r
      ≡ send_made server
          (request_of (codes "POST") url token (some body))
          none
          tt
          (server.new_request url)

-- For an id of bytes, the request of `Result` goes to the path of that id: the id is one segment
-- of the path, without a slash, a question mark or a number sign, and reading the segment back
-- gives the id.
pub send_result-ReportsOn :
    (server : Server) (base token id body : Text)
    → All IsByte id
    → ReportsOn server base token id body (send_result server base token id (got body))
unfolding send_result post do_request
send_result-ReportsOn server base token id body h = record {
  segment = path_escape id;
  stays = path_escape-IsSegmentByte id h;
  names = read_path-path_escape id h;
  sends = refl;
}
