-- ===== src/Lsp/Client/Shutdown.antt =====
-- `shutdown` of crates/aide-lsp/src/client.rs: what is sent when a client is stopped.
use aide_mcp.Base.{
  text_equal, [], ◌∷◌, none, some, List, Bool, Text, ◌++◌, ◌≡◌, refl, arith, map, ◌∙◌, same_refl,
  text_same_iff,
}
use aide_mcp.Base.Map.{Map, get, remove, Distinct, get-remove}
use aide_mcp.Lsp.Documents.{Documents, Notification, did_close, receive_all}
use aide_mcp.Lsp.Documents.Mirror.{Mirrors}
use aide_mcp.Lsp.Client.{LspClient, send_request}

pub data Outgoing : Type 0 where
  notification : Notification → Outgoing
  shutdown_request exit_notification : Outgoing

abbrev pub close_all : Documents → List Notification
close_all [] = []
close_all ((uri, doc) ∷ m) = did_close uri ∷ close_all m

-- What is written in turn, failures aside, and the client when `shutdown` waits for its response.
unfoldable pub shutdown : Bool → LspClient → List Outgoing × LspClient
unfolding send_request
shutdown written c = (
  map (λ n. notification n) (close_all c.opened) ++ (shutdown_request ∷ exit_notification ∷ []),
  (send_request written (record c { opened = [] })).1,
)

close_all-empties :
    (m : Documents) (server : Map Text Text)
    → Distinct m
    → Mirrors m server
    → (server' : Map Text Text) × (receive_all (close_all m) server ≡ some server')
      × ((u : Text) → get u server' ≡ none)
unfolding receive_all
close_all-empties [] server d h = (server, refl, h)
close_all-empties ((uri, doc) ∷ m) server d h =
    let there : get uri server ≡ some doc.text = h uri ∙ rw (same_refl uri) refl in
    let (server', legal, empty) =
      close_all-empties m (remove uri server) d.1
        (λ u. ground (arith, get-remove uri u server, h u, d.0, text_same_iff uri u)) in
    (server', rw (there, receive_all) legal, empty)

-- If the server has the open documents of the client and none is recorded twice, then the notifications with which
-- shutdown closes them are legal and leave the server without a document, and the client has none left either.
pub shutdown-closes :
    (written : Bool) (c : LspClient) (server : Map Text Text)
    → Distinct c.opened
    → Mirrors c.opened server
    → ((server' : Map Text Text) × (receive_all (close_all c.opened) server ≡ some server')
        × ((u : Text) → get u server' ≡ none))
      × ((shutdown written c).1.opened ≡ [])
unfolding shutdown send_request
shutdown-closes written c server d h = (close_all-empties c.opened server d h, refl)
