-- ===== src/Lib.antt =====
-- EdgeVision Gateway is an edge data gateway, written in C for embedded Linux: it reads measurements
-- from a sensor (over Modbus RTU on RS-485, or simulated), queues them between threads, keeps them in
-- an outbox and publishes them, and it speaks a framed protocol over TCP. This library models the parts
-- that hold its core logic, function by function under the names of the C code.
--
-- The files and the code:
--   Protocol/Crc, Protocol/Frame, Protocol/Modbus: modules/protocol/frame.c. Crc is
--     frame_crc16_modbus; Frame the encoder frame_encode and the incremental parser frame_parser_t with
--     frame_parser_feed and frame_parser_next; Modbus builds the requests to read registers and checks
--     the responses. The files below each hold the proofs and are named for what they prove.
--   Gateway/Connection: send_frame and gateway_connection_recv_frame of core/gateway.c, over the
--     parser. The socket is the list of what its reads bring: bytes, the end of the stream or an error.
--   Queue: modules/blocking_queue/blocking_queue.c, the bounded queue between the threads. Inv is its
--     invariant, Contents the sequence that it holds, Refine and RefinePop relate push and pop to that
--     sequence, History follows many calls, Deadline is make_deadline.
--   Serial: modules/serial/rs485_serial.c and rse_control.c. Receive holds the deadline, the wait and the
--     loop that reads an exact number of bytes, Send the writing and the direction line of RS-485.
--   Source: modules/source. Stm32 is stm32_modbus_source.c, a Modbus transaction over Serial and
--     Protocol/Modbus that brings two measurements; Simulated is simulated_source.c, and
--     RealSerial real_serial_source.c.
--   Gateway/Interval: core/interval_config.c, the file with the interval. Digits prints and reads numbers,
--     Files is what a file gives back.
--   Net: modules/net/network_client.c. Backoff is the waiting time between connections, Client the
--     connection, Client/Worker the thread that connects, receives, waits and connects again; its Clean
--     follows the sockets, its Stop a request to stop.
--   Storage: modules/storage/outbox_store.c, over tables as lists of rows. Result holds the result codes
--     and the ways of a statement, Tables what each SQL statement does to the rows, Outbox the operations,
--     Schema the opening of the database with its migrations. Outbox/Payload joins it with Domain/Json.
--   Workers: core/gateway_workers.c. Commands is gateway_handle_command with what the storage worker does for
--     it; Pipeline is gateway_storage_worker and gateway_mqtt_worker with the two queues between them: Moves
--     lists their steps, Flow holds between any two of them, Delivery and Progress follow runs. Remote is
--     gateway_mqtt_command_worker with its cache of answers, over an argument that stands for
--     gateway_execute_command; Text holds the words of the commands.
--   Domain: domain/measurement.h and domain/measurement.c, the record that all parts share, and
--     measurement_validate; Json is domain/measurement_json.c, over arguments that stand for cJSON and for
--     the arithmetic of `double`.
--   Common: tests, lists, words of 8, 16, 32 and 64 bits, bit operations, signed integers and C strings.
--
-- How state is modelled: a struct is a record, a function takes the old and returns the new one. Bytes
-- are numbers below 256; the theorems that need this say so. A byte buffer with a length is the list of
-- its live bytes. A function that is called under a mutex is one step. A wait on a condition variable
-- gives the mutex up, so a call of bq_push or bq_pop takes the list of its wake-ups, each with the
-- return code of the wait and the queue as the other threads left it. When the list ends while the
-- call would wait again, the outcome is `waiting`.
--
-- Loops: the parser and the CRC recurse on their data. gateway_connection_recv_frame takes fuel; more
-- fuel than bytes in the parser's buffer and events and bytes still to come is enough, as proved below.
-- The loops of Serial and Net run on the list of what the kernel answers, one member for each pass, and say
-- when they still go on at its end.
--
-- Parameters: `isfinite` of doubles, what malloc, clock_gettime, pthread, poll, read,
-- write, ioctl and the socket calls answer. SQLite, too: the return codes of its calls are arguments,
-- one per call, in the order of the code; each SQL statement of the source is a function on the rows of
-- the tables, and acts where the step of the statement succeeds. measurement_to_json is an argument of
-- the outbox, for which Outbox/Payload takes that of Domain/Json. What cJSON parses and prints is an
-- argument, and so are the answers of mqtt_publisher_publish_json, and whether
-- gateway_create_delivery_payload, which consists of calls of cJSON, makes a payload.
--
-- Not modelled: the MQTT publisher, the log, the source worker, starting and joining the workers, the
-- command line, starting and stopping the network client, opening and closing of the serial port, the
-- printing of messages, and third_party/cjson, which is a copy of another project's library.
pub mod Common
pub mod Domain
pub mod Gateway
pub mod Net
pub mod Protocol
pub mod Queue
pub mod Serial
pub mod Source
pub mod Storage
pub mod Workers
