-- ===== src/Dispatcher/Tests.antt =====
-- leaf/src/app/dispatcher.rs: the sniffer on a ClientHello, and the statements at concrete inputs.
use i_leaf.Prelude.{
  ℕ, ◌≡◌, ◌≢◌, refl, List, [], ◌∷◌, ◌++◌, length, replicate, some, ok, err, panic, arith,
}
use i_leaf.Prelude.Text.{codes}
use i_leaf.Prelude.Stream.{unexpected_eof}
use i_leaf.Prelude.Polls.{Event, bytes, not_ready, content}
use i_leaf.Dispatcher.{
  look, client_hello, extensions, server_name, long_prefix, sniffing_stream, sniff, poll_read,
}
use i_leaf.Dispatcher.Bounds.{sniff-ne-panic}
use i_leaf.Dispatcher.Transfer.{transfer, copy}
use i_leaf.Dispatcher.Relay.{copy-sniff, copy-new_reader}
use i_leaf.Shadow
use i_leaf.Shadow.{new_reader}
use i_leaf.Shadow.Chunks.{concat}
use i_leaf.Shadow.Tests.{tag, plain, psk, salt, payload, cut_up, carried}
use i_leaf.Prelude.Writes.{WriteEvent, Sink, takes, blocked}

-- An empty extension of type 23 in front of the server name "a.io".
abbrev extension_list : List ℕ
extension_list = 0 ∷ 23 ∷ 0 ∷ 0 ∷ 0 ∷ 0 ∷ 0 ∷ 9 ∷ 0 ∷ 7 ∷ 0 ∷ 0 ∷ 4 ∷ codes "a.io"

abbrev hello_body : List ℕ
hello_body =
    replicate 38 1 ++ (0 ∷ 0 ∷ 2 ∷ 19 ∷ 1 ∷ 1 ∷ 0 ∷ 0 ∷ length extension_list ∷ extension_list)

abbrev hello : List ℕ
hello = 0x16 ∷ 3 ∷ 1 ∷ 0 ∷ length hello_body ∷ hello_body

finds_name : look (hello ++ (9 ∷ [])) ≡ ok (codes "a.io")
unfolding look client_hello extensions server_name long_prefix
finds_name = refl

abbrev lossy : List ℕ → List ℕ
lossy s = s

abbrev two_parts : List Event
two_parts = bytes (0x16 ∷ 3 ∷ []) ∷ bytes (1 ∷ 0 ∷ 200 ∷ 7 ∷ []) ∷ not_ready ∷ bytes (8 ∷ []) ∷ []

sniff-ne-panic_example : (sniff lossy 2 sniffing_stream two_parts).0 ≢ panic
sniff-ne-panic_example = sniff-ne-panic lossy 2 sniffing_stream two_parts

abbrev slow_writer : List WriteEvent
slow_writer = takes 1 ∷ blocked ∷ takes 4 ∷ []

copy-sniff_example :
    (k : Sink) × (copy
        (poll_read 2048)
        40
        (transfer (sniff lossy 2 sniffing_stream two_parts).1)
        (sniff lossy 2 sniffing_stream two_parts).2
        (record { out = []; answers = slow_writer })
      ≡ some (ok 7, k))
    × (k.out ≡ content two_parts)
copy-sniff_example =
    copy-sniff lossy 2 40 two_parts slow_writer (omega arith, (omega arith, (omega arith, tt)))
      (omega arith, (omega arith, tt)) (omega arith)

copy-new_reader_example :
    (k : Sink) × (copy
        (Shadow.poll_read plain psk 2048)
        200
        (transfer new_reader)
        cut_up
        (record { out = []; answers = slow_writer })
      ≡ some (err unexpected_eof, k))
    × (k.out ≡ concat (payload ∷ []))
copy-new_reader_example =
    copy-new_reader plain psk salt ((0 ∷ 2 ∷ tag) ++ (41 ∷ 42 ∷ tag)) (replicate 4 9) (payload ∷ [])
      200 cut_up slow_writer (omega arith)
      (omega arith, (omega arith, (omega arith, (omega arith, tt)))) refl refl refl carried
      (omega arith, (omega arith, tt)) (omega arith)
