-- ===== src/Console/Election/Files.antt =====
-- Which files an election bid of bin/console.rs can write, however it ends.
use ever_node_tools.Prelude.{ℕ, suc, String, ◌≡◌, ◌⊎◌, List, [], ◌∷◌, length}
use ever_node_tools.Prelude.Int.{ℤ}
use ever_node_tools.Outcome.{ok}
use ever_node_tools.Io.{Io}
use ever_node_tools.Rust.Word.{Bytes}
use ever_node_tools.Console.Outside.{
  Api, World, Event, IsLawful, read_clock, read_line, read_file, write_file, send_query, sleep,
  print,
}
use ever_node_tools.Console.Receive.{Reply}
use ever_node_tools.Console.Send.Laws.{IsI32}
use ever_node_tools.Console.Client.{process_command}
use ever_node_tools.Console.Bid.{Bid}
use ever_node_tools.Console.Message.{Keys, bytes_to_sign}
use ever_node_tools.Console.Election.Whole.{message}

-- the number of the files that were written
unfoldable pub writes : List Event → ℕ
writes [] = 0
writes (write_file path bytes ∷ h) = suc (writes h)
writes (read_clock ∷ h) = writes h
writes (read_line ∷ h) = writes h
writes (read_file path ∷ h) = writes h
writes (send_query bytes ∷ h) = writes h
writes (sleep n ∷ h) = writes h
writes (print text ∷ h) = writes h

module _ (api : Api) (world : World api.Answer) (laws : IsLawful api) where
  -- No file was written, or the one that was is the message, whose signature was verified.
  abbrev pub Guarded : Bid → String → List Event → List Event → Type 0
  Guarded bid path h g =
      (writes g ≡ writes h)
      ⊎ ((keys : Keys) × (signature bytes : Bytes) × (v : ℤ) × (g' : List Event) × (g
            ≡ write_file path bytes ∷ g')
          × (writes g' ≡ writes h)
          × (message api world v bid keys signature ≡ ok bytes)
          × (length keys.pub_key ≡ 32)
          × (api.verify keys.pub_key (bytes_to_sign bid keys) signature ≡ ok tt))

  module _ (bid : Bid) (elect_fits : IsI32 bid.elect_time)
      (expire_fits : IsI32 bid.expire_time) where
    abbrev call : String → List String → Io Event Reply
    call = process_command api world
