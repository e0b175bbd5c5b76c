-- ===== src/Lib.antt =====
-- The gateway and the cloud API of the connected-vehicle health platform.
--
-- ESP32 clients send telemetry of vehicles to a gateway, a MicroPython program under
-- gateway/lilygo-micropython/, which keeps a log and a registry of the clients, queues the
-- messages, and publishes them through a cellular modem to a broker. The broker fills a table in
-- the cloud. The API, aws-dashboard/backend/car_health_api/lambda_function.py, reads the newest
-- records of a device from that table and reports its state, its health, its history and its
-- maintenance needs.
--
-- Which file models what:
--   Logger (logger.py): the ring of log entries. `add`, `entries` and `trim` are `_add`, `entries`
--     and `trim`; the clock's text is part of the entry that is added.
--   Devices (device_manager.py): the registry. `update` is the method, from the parsed message on;
--     its result has the line that it logs.
--   Config (config.py): the constants that the other files read.
--   Clock (time_manager.py): `sync_time`, whose loop is `attempts`, over any board and library that
--     sets its clock (`Board`), and `is_synchronized`, which is `synchronized`.
--   Mqtt.Topic (mqtt_manager.py): `_message_kind`, `_safe` and `_topic`.
--   Mqtt.Queue: the queue and its counters. `enqueue`, `_enqueue_important`, `_enqueue_priority`
--     and `_lowest_priority_index`. `enqueue_entry` is `enqueue` from the point on at which the
--     topic and the kind are known.
--   Mqtt.Service: `start` and `_handle_event`, cut at each `await`, where other tasks may run.
--     `Publisher` has the manager, the point that the task has reached, and `delay`. A step from
--     one await to the next is one function. Mqtt.Service.Runs has the relation `Step` of the
--     task's steps and of the calls of `enqueue` between them, in any order, and `Reach` for its
--     runs.
--   Mqtt.Events: `_parse_event`, `_event_value` and `_require_result`, the readers of the modem's
--     events and results. Mqtt.Connect: `_connect`, `_provision_certificates`, `_publish` and
--     `_cleanup`, as methods that send commands to any modem.
--   Method: what a method of an object of the gateway is, a function of the object's fields, the
--     state of what it calls and the log, with the exceptions of Python. Method.Rules has the rules
--     by which the other files show how such a method ends.
--   Modem (modem_manager.py): the fields of the manager. Modem.Answers has its static methods with
--     `_set_signal` and `_set_registration`; Modem.Uart the loops that wait for an answer, for a
--     UART with a clock (`Port`), and Modem.Uart.Event `read_mqtt_event`; Modem.Line what the
--     methods above them use, which Modem.Uart.Serves gives them. Modem.Attach is
--     `_configure_and_check`, Modem.Internet `test_internet` with its task, and Modem.Monitor
--     `_wait_for_modem` and `start`, whose loop is `run` over any sequence of passes and of tests
--     that the web server asks for.
--   Tcp (tcp_server.py): `read_message` is `_read_message`, over the bytes that the reader gives
--     it.
--   Tcp.Server: `receive_message` is the body of the loop of `handle`, over what the reading and
--     decoding of a message, its parsing and the writing of its acknowledgement give; it calls
--     `Devices.update` and `Mqtt.Queue.enqueue` as the code does, and says whether the connection
--     goes on. `receive_all` takes the messages of all the connections in the order in which they
--     are answered; only the order of log lines may differ from that, as other connections run
--     while an acknowledgement is sent.
--   Supervisor (gateway.py): `pass` is one pass of the loop of `_service_supervisor`, with what the
--     network, the probe and the restarts give it as its argument. Supervisor.Memory is the memory
--     loop of `start_gateway`, with the log that it trims.
--   Web (web_server.py): the counters of `handle`, cut at its awaits, and of `start` and `restart`;
--     Web.Admission has their steps in any order. Web.Route is `_route` with the head of a reply,
--     and Web.Handle the `try` of `handle` and that of `_file` with their exceptions.
--   Api.Dtc, Api.Merge, Api.Health, Api.Maintenance: `_valid_dtc_codes`, `_data` and `_merge`,
--     `_received_ms` and `_health`, and `_number`, `_series`, `_confidence`, `_finding` and
--     `_predictive_maintenance` of lambda_function.py. `_health` changes the telemetry that it is
--     given; `clean_telemetry` is what it leaves.
--   Api.Event, Api.Handler: `_device_id`, `_route`, `_file_response` and `lambda_handler`.
--   Api.Trip, Api.Trip.Report: the loop of `_trip_estimate`, and its result before it is rounded.
--   Json is the type of what json.loads returns, Text the text methods of MicroPython, Api.PyText
--     those of CPython, and Api.Values the numbers of the API. Prelude has what all the files
--     share.
--
-- Parameters. The code that is not part of the repository is an argument of the definitions that
-- use it: the printing of values by `str` (`render`), json.loads (`loads`, `parse`), json.dumps
-- (`dumps`), Python's `int` (`int_of`, `int_of_value`), its numbers with their arithmetic and
-- printing (the record Numbers), its Unicode tables (the record Unicode), the clock, the files of
-- the frontend (`read`) and the table of the database (`table`), the reader of a connection
-- (`read`), the rounding of a rate (`rate`), the difference of two ticks (`ticks_diff`), the floats
-- of a trip (the record Floats), the UART with the board's clock (Port, Line), the setting of that
-- clock (Board), and what the publisher calls of the modem (Calls). An exception is `none`,
-- `raised`, or the reply `failed` of the handler. Laws are assumed of few of them: a reader gives
-- at most as many bytes as it is asked for; the clock does not go back and a pause takes its time
-- (IsClock, and the last fields of Line); the floats keep laws of IEEE arithmetic that hold without
-- a NaN (IsFloat); and Python's `int` reads back a printed number (IsPrinter).
--
-- Bounds. Most loops are structural recursion on a list or a text. `read_message` runs on fuel, one
-- more than TCP_MAX_MESSAGE_SIZE, which is enough because each further pass has a byte more. The
-- loops that wait for the modem (`poll`, `wait_loop`) run on fuel, one more than their timeout in
-- milliseconds, which is enough because each pass takes more than a millisecond. That of
-- `read_mqtt_event` has no such bound, as each chunk puts its deadline off; a bound on the chunks
-- gives one. The wrapping of `ticks_ms` is left out: times are natural numbers. Counters are
-- Python's unbounded integers. The capacity of the log and of the registry is any number, as it is
-- an argument of their constructors; that of the queue is the one of config.py.
--
-- Not modelled. In modem_manager.py the pins of the board, `status`, and what other tasks do while
-- a method waits for an answer; the bodies of the web server's replies, which dashboard builds, and
-- the closing of its old server; what time_manager prints; network_manager, dashboard, main, boot
-- and utils, which call the board's drivers; the probe and the recovery of the network in gateway;
-- the opening and closing of a connection in tcp_server, with the count of clients, and its
-- restart; the ESP32 clients in C and the frontend in JavaScript. The reply of the API's handler to
-- `/trip` keeps the records that `_trip_estimate` is called with. The fixed texts of a reply of the
-- API (its headers, the disclaimer, the baseline) are left out.
pub mod Prelude
pub mod Json
pub mod Logger
pub mod Devices
pub mod Config
pub mod Clock
pub mod Text
pub mod Mqtt
pub mod Api
pub mod Tcp
pub mod Supervisor
pub mod Web
pub mod Method
pub mod Modem
