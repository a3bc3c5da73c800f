-- ===== src/Apache/Send/Tests.antt =====
-- mod_socket_handoff.c, `send_fd_with_data` on two systems.
use mod_socket_handoff.Base.{some, arith}
use mod_socket_handoff.Apache.Samples.{calm, start, handoff_json}
use mod_socket_handoff.Apache.Send.{send_fd_with_data}
use mod_socket_handoff.Apache.Send.Delivery.{IsDelivery, send-IsDelivery}

send-IsDelivery_example :
    let (r, w) = send_fd_with_data calm 10 5 (some handoff_json) 200 530000 start in
    IsDelivery 200 10 5 (some handoff_json) start r.0 w
send-IsDelivery_example =
    send-IsDelivery calm 10 5 (some handoff_json) 200 530000 start (λ n k e. ground arith)
