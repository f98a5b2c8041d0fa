-- ===== src/Files/Transfer/Replies.antt =====
-- Which data a reply brings, of code/filehandler.go.
use blockchain_sybil_attack.Base.{
  ℕ, ◌≡◌, Bool, false, not, ◌&&◌, Option-cases, inl, inr, Option, none, some, [], ◌∷◌, ◌++◌,
  append-nil, get, get-put, ◌==◌, ==_iff, nat_eq, text_eq, hex, if◌then◌else◌, arith,
}
use blockchain_sybil_attack.Chain.Platform.{Platform}
use blockchain_sybil_attack.Messages.{DataReply}
use blockchain_sybil_attack.Node.{State, Download}
use blockchain_sybil_attack.Files.{hash}
use blockchain_sybil_attack.Files.Transfer.{
  queue, handle_data_reply, get_pending, stop_timer_and_send_data,
}

-- Whether a pending request is for data that this reply brings, and is fed by the channel.
unfoldable pub awaits : Platform → DataReply → ℕ → Option Download → Bool
awaits lib dr channel none = false
awaits lib dr channel (some d) =
    d.channel == channel && not (d.hash == []) && d.hash == hex (lib.sha256 dr.content)

-- The content of a reply is sent on a channel exactly when the request that is pending at the origin
-- of the reply has the hash of the content and that channel. Every request stays pending.
pub handle_data_reply_downloads :
    (lib : Platform) (s : State) (dr : DataReply) (channel : ℕ)
    → (queue (handle_data_reply lib s dr) channel
        ≡ queue s channel
          ++ (if awaits lib dr channel (get s.downloads dr.origin) then dr.content ∷ [] else []))
      × ((handle_data_reply lib s dr).downloads ≡ s.downloads)
      × ((handle_data_reply lib s dr).files ≡ s.files)
unfolding handle_data_reply get_pending stop_timer_and_send_data hash awaits
handle_data_reply_downloads lib s dr channel = elim (Option-cases (get s.downloads dr.origin)) [
  | inl missing ↦ (ground (arith, append-nil (queue s channel)), ground arith, ground arith)
  | inr (d, found) ↦
      let fed = get-put s.channels d.channel channel (queue s d.channel ++ dr.content ∷ []) in
      (
        grind (arith, append-nil (queue s channel), fed, ==_iff d.channel channel),
        ground arith,
        ground arith,
      )
]
