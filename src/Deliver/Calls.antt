-- ===== src/Deliver/Calls.antt =====
-- worker/deliver/deliver.go, grpcRelayer: a connection for each address, and the calls over it.
use alfred_brave_com.Base.{
  String, Bool, true, List, [], ◌∷◌, contains, keep, not, ◌==◌, if◌then◌else◌,
}
use alfred_brave_com.Base.Errors.{driver}
use alfred_brave_com.Base.Exec.{Result, ok, err, Exec, ◌>>◌}
use alfred_brave_com.Relay.{RelayMessageResponse}

-- How a call of one message ends: with a response, with the status Unavailable, or with another.
pub data Reply : Type 0 where
  answered : RelayMessageResponse → Reply
  unavailable failed : Reply

-- The same of a batch, where a response may also be nil.
pub data BatchReply : Type 0 where
  batch_answered : List RelayMessageResponse → BatchReply
  batch_missing batch_unavailable batch_failed : BatchReply

-- `conns` are the addresses with a connection; the lists are what comes of the next dials and calls.
pub record Relayer : Type 0 where
  pub conns : List String
  pub dials : List Bool
  pub replies : List Reply
  pub batch_replies : List BatchReply

next_dial : List Bool → Bool × List Bool
next_dial [] = (true, [])
next_dial (b ∷ rest) = (b, rest)

next_reply : List Reply → Reply × List Reply
next_reply [] = (failed, [])
next_reply (r ∷ rest) = (r, rest)

next_batch_reply : List BatchReply → BatchReply × List BatchReply
next_batch_reply [] = (batch_failed, [])
next_batch_reply (r ∷ rest) = (r, rest)

unfoldable pub conn : String → Exec Relayer (Unit {0})
unfolding contains next_dial
conn addr g =
    let (dialled, rest) = next_dial g.dials in
    if contains addr g.conns
    then (ok tt, g)
    else if dialled
    then (ok tt, record g { conns = addr ∷ g.conns; dials = rest })
    else (err driver, record g { dials = rest })

unfoldable pub evict : String → Relayer → Relayer
unfolding keep
evict addr g = record g { conns = keep (λ other. not (other == addr)) g.conns }

took : String → Reply → Relayer → Result RelayMessageResponse × Relayer
took addr (answered r) g = (ok r, g)
took addr unavailable g = (err driver, evict addr g)
took addr failed g = (err driver, g)

took_batch : String → BatchReply → Relayer → Result (List RelayMessageResponse) × Relayer
took_batch addr (batch_answered rs) g = (ok rs, g)
took_batch addr batch_missing g = (ok [], g)
took_batch addr batch_unavailable g = (err driver, evict addr g)
took_batch addr batch_failed g = (err driver, g)

unfoldable pub relay : String → Exec Relayer RelayMessageResponse
unfolding took next_reply
relay addr = do
  conn addr
  λ g. let (r, rest) = next_reply g.replies in took addr r (record g { replies = rest })

-- A nil response counts as one with no results.
unfoldable pub batch_relay : String → Exec Relayer (List RelayMessageResponse)
unfolding took_batch next_batch_reply
batch_relay addr = do
  conn addr
  λ g.
      let (r, rest) = next_batch_reply g.batch_replies in
      took_batch addr r (record g { batch_replies = rest })
