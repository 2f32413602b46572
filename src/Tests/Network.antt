-- ===== src/Tests/Network.antt =====
-- The theorems on sockets and on the reports, applied to machines.
use cloning_apps.Base.{
  inl, [], replicate, ◌+◌, ◌≤◌, ◌≡◌, ◌⊎◌, is_neg, refl, true, false, none, some, arith, length, pos,
  is_zero, codes,
}
use cloning_apps.Globals.{initial_globals}
use cloning_apps.System.Ends.{Ends, Never}
use cloning_apps.System.{Env, recv, recvfrom}
use cloning_apps.Net.{MySocket, tcp_server_recv_msg}
use cloning_apps.Net.Datagram.{udp_server_recv_msg}
use cloning_apps.Time.{time_message, send_loop, send_time}
use cloning_apps.Time.StopAndWait.{At, answered, failed, ready, SentBeyond, send_loop-Delivers}
use cloning_apps.Time.Report.{datagrams}
use cloning_apps.Time.Message.{length-time_message}
use cloning_apps.Time.Gateway.{send_time-Unsent}
use cloning_apps.PosixServer.{posix_server}
use cloning_apps.PosixServer.Answers.{AllAnswered, posix_server-AllAnswered}
use cloning_apps.Net.Buffers.{ReceivesAtMost, Received, recv_msg-Received}
use cloning_apps.Tests.{nothing, message, calm, calm_unikraft, start}

abbrev client : MySocket
client = record { s = pos 5; port = 5000 }

send_loop-Delivers_example :
    Ends
      (λ rc s'.
        (((rc ≡ pos 0) × At ⦃env = calm⦄ client 1 (codes "0.5") [] answered s')
          ⊎ ((is_neg rc ≡ true) × At ⦃env = calm⦄ client 1 (codes "0.5") [] failed s'))
        × SentBeyond 1 [] s'.trace)
      (At ⦃env = calm⦄ client 1 (codes "0.5") [] ready)
      (send_loop ⦃env = calm⦄ 3 (some client) 1 (codes "0.5") start)
send_loop-Delivers_example = send_loop-Delivers ⦃env = calm⦄ 3 client 1 (codes "0.5") start

send_time-Unsent_example :
    Ends
      (λ rc s'. (is_zero rc ≡ false) × (datagrams s'.trace ≡ 0))
      Never
      (send_time ⦃env = calm_unikraft⦄ 3
        (some client)
        none
        none
        (record start { globals = record initial_globals { do_send_time = true } }))
send_time-Unsent_example =
    send_time-Unsent ⦃env = calm_unikraft⦄ 3 client none none
      (record start { globals = record initial_globals { do_send_time = true } }) refl
      (λ t. ground arith)

length-time_message_example :
    length (time_message (record { sec = pos 12; usec = pos 34 }) (some (codes "child;7"))) + 1 ≤ 64
length-time_message_example =
    length-time_message (record { sec = pos 12; usec = pos 34 }) 34 (codes "child;7") refl
      (omega arith) (omega arith)

posix_server-AllAnswered_example :
    Ends
      (λ rc s'. (is_neg rc ≡ true) × AllAnswered s')
      AllAnswered
      (posix_server ⦃env = calm⦄ 4 start)
posix_server-AllAnswered_example =
    posix_server-AllAnswered ⦃env = calm⦄ (λ t d. omega arith) 4 start refl

-- As many bytes come as are asked for.
abbrev filling : Env
filling = record calm {
  answer = λ t made. elim made [
    | recv _ n ↦ record nothing { value = pos n; bytes = replicate n 1 }
    | recvfrom _ n ↦ record nothing { value = pos n; bytes = replicate n 2 }
    | other ↦ calm.answer t other
  ];
}

filling_most : ReceivesAtMost filling
filling_most = record { recv_most = λ t d n. omega arith; recvfrom_most = λ t d n. omega arith }

recv_msg-Received_example :
    Ends Received Never (tcp_server_recv_msg ⦃env = filling⦄ message start)
    × Ends Received Never (udp_server_recv_msg ⦃env = filling⦄ client message start)
recv_msg-Received_example =
    recv_msg-Received ⦃env = filling⦄ filling_most message client start (inl refl)
