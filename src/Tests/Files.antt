-- ===== src/Tests/Files.antt =====
-- The theorems on the file server, applied to machines.
use cloning_apps.Base.{
  ◌≡◌, refl, inr, false, List, [], ◌∷◌, arith, ltb, ◌==◌, length, ℕ, pos, is_zero, codes,
  if◌then◌else◌, pos_part, le_bytes, minus_one, ◌≤◌,
}
use cloning_apps.System.{
  Env, Trace, Call, Reply, alloc_pages, write, accept, recv, malloc, reuse_addr, bind, listen,
  getpeername,
}
use cloning_apps.System.Ends.{Ends, Never}
use cloning_apps.Net.Sockets.{SocketCalls}
use cloning_apps.Servers.Returns.Calls.{Silent}
use cloning_apps.Files.{write_words_type, create_file_write_data, run_server, serve_files}
use cloning_apps.Files.Stop.{one_client, serve_files-Stops}
use cloning_apps.Net.{fit, overwrite}
use cloning_apps.Files.Writers.{WriteCalls}
use cloning_apps.Files.Create.{WholeWords, Created, create_file_write_data-Created}
use cloning_apps.Files.Descriptors.{Open}
use cloning_apps.Files.Lifetime.{ClosesDown, run_server-ClosesDown}
use cloning_apps.Files.Halting.{run_server-Finishes}
use cloning_apps.Tests.{nothing, calm, calm_answer, listening, start}

-- A file that takes all that it is given.
abbrev pub roomy_answer : Trace → Call → Reply
roomy_answer t (write _ bytes) = record nothing {
  value = if length bytes == 0 then minus_one else pos (length bytes);
}
roomy_answer t (alloc_pages k) = record nothing { ptr = if ltb k 3 then 4096 else 0 }
roomy_answer t (reuse_addr _) = nothing
roomy_answer t (bind _ _) = nothing
roomy_answer t (listen _ _) = nothing
roomy_answer t (getpeername _) = nothing
roomy_answer t _ = record nothing { value = pos 4; ptr = 4096; bytes = codes "write-words" }

abbrev pub roomy : Env
roomy = record calm { answer = roomy_answer }

roomy-progresses :
    (text : List ℕ) → is_zero (if length text == 0 then minus_one else pos (length text)) ≡ false
roomy-progresses [] = refl
roomy-progresses (x ∷ text) = ground arith

roomy-bounded :
    (text : List ℕ)
    → pos_part (if length text == 0 then minus_one else pos (length text)) ≤ length text
roomy-bounded [] = omega arith
roomy-bounded (x ∷ text) = ground arith

abbrev roomy_writes : WriteCalls roomy
roomy_writes = record {
  progress = λ t fd text. roomy-progresses text;
  bounded = λ t fd text. roomy-bounded text;
}

whole_words : WholeWords roomy
unfolding le_bytes
whole_words t fd = inr refl

create_file_write_data-Created_example :
    Ends
      (Created 20 [])
      Never
      (create_file_write_data ⦃env = roomy⦄ 21 (codes "data") 20 write_words_type start)
create_file_write_data-Created_example =
    create_file_write_data-Created ⦃env = roomy⦄ roomy_writes whole_words 21 (codes "data") 20
      write_words_type start (omega arith)

roomy_sockets : SocketCalls roomy
roomy_sockets = record { reuse = λ t d. refl; bind_code = λ t d a. refl }

run_server-ClosesDown_example :
    ClosesDown ⦃env = roomy⦄ roomy_sockets whole_words (pos 4) [] (run_server ⦃env = roomy⦄ 3 start)
run_server-ClosesDown_example =
    run_server-ClosesDown ⦃env = roomy⦄ roomy_sockets whole_words (pos 4) 3 start

-- The same machine, which falls silent after twelve calls.
abbrev roomy_until_12_answer : Trace → Call → Reply
roomy_until_12_answer t (accept d) =
    if ltb (length t) 12 then roomy_answer t (accept d) else record nothing { value = minus_one }
roomy_until_12_answer t (recv d k) =
    if ltb (length t) 12 then roomy_answer t (recv d k) else record nothing { value = minus_one }
roomy_until_12_answer t c = roomy_answer t c

abbrev roomy_until_12 : Env
roomy_until_12 = record calm { answer = roomy_until_12_answer }

abbrev roomy_until_12_writes : WriteCalls roomy_until_12
roomy_until_12_writes = record {
  progress = λ t fd text. roomy-progresses text;
  bounded = λ t fd text. roomy-bounded text;
}

whole_words_until_12 : WholeWords roomy_until_12
unfolding le_bytes
whole_words_until_12 t fd = inr refl

roomy-Silent : Silent roomy_until_12 12
roomy-Silent = record { no_accept = λ t l h. ground arith; no_recv = λ t d k h. ground arith }

run_server-Finishes_example :
    Ends
      (λ _ s'. Open (pos 4) 0 [] s'.trace)
      Never
      (run_server ⦃env = roomy_until_12⦄ 4194317 start)
run_server-Finishes_example =
    run_server-Finishes ⦃env = roomy_until_12⦄ roomy_until_12_writes whole_words_until_12 12
      roomy-Silent (record { reuse = λ t d. refl; bind_code = λ t d a. refl }) (pos 4) 4194317 start
      (omega arith)

-- A client connects and sends nothing, and its buffer is a block that held "stop" before.
abbrev reused_block_answer : Trace → Call → Reply
reused_block_answer t (malloc _) = record nothing { ptr = 4096; bytes = codes "stop" }
reused_block_answer t (recv _ _) = nothing
reused_block_answer t c = calm_answer t c

abbrev reused_block : Env
reused_block = record calm { answer = reused_block_answer }

serve_files-Stops_example :
    Ends
      (λ rc s'. (rc ≡ pos 0) × (s'.trace ≡ one_client ⦃env = reused_block⦄ listening start))
      Never
      (serve_files ⦃env = reused_block⦄ 3 listening start)
unfolding fit overwrite
serve_files-Stops_example =
    serve_files-Stops ⦃env = reused_block⦄ listening start 2 refl refl refl refl refl
