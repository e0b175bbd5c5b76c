-- ===== src/Config.antt =====
-- config.py: the constants that the modelled services read.
use connected_vehicle_health.Prelude.{ℕ, String}

abbrev pub mqtt_queue_capacity : ℕ
mqtt_queue_capacity = 20

abbrev pub mqtt_reconnect_max_seconds : ℕ
mqtt_reconnect_max_seconds = 300

abbrev pub mqtt_topic_prefix : String
mqtt_topic_prefix = "dt/iiot-lab/factory1"

abbrev pub mqtt_command_topic : String
mqtt_command_topic = "cmd/iiot-lab/factory1/gateway/lte-gw-01/request"

abbrev pub mqtt_response_topic : String
mqtt_response_topic = "cmd/iiot-lab/factory1/gateway/lte-gw-01/response"

abbrev pub device_capacity : ℕ
device_capacity = 50

abbrev pub log_capacity : ℕ
log_capacity = 500

abbrev pub tcp_read_size : ℕ
tcp_read_size = 1024

abbrev pub tcp_max_message_size : ℕ
tcp_max_message_size = 4096

abbrev pub tcp_frame_timeout_ms : ℕ
tcp_frame_timeout_ms = 150

abbrev pub tcp_client_idle_timeout_ms : ℕ
tcp_client_idle_timeout_ms = 5000

abbrev pub http_health_interval_seconds : ℕ
http_health_interval_seconds = 60

abbrev pub http_health_failure_limit : ℕ
http_health_failure_limit = 3

abbrev pub wifi_monitor_interval_seconds : ℕ
wifi_monitor_interval_seconds = 10

abbrev pub modem_apn : String
modem_apn = "internet"

abbrev pub modem_command_timeout_ms : ℕ
modem_command_timeout_ms = 3000

abbrev pub modem_startup_timeout_seconds : ℕ
modem_startup_timeout_seconds = 20

abbrev pub modem_internet_test_interval_seconds : ℕ
modem_internet_test_interval_seconds = 300

abbrev pub modem_ping_host : String
modem_ping_host = "8.8.8.8"

abbrev pub modem_ping_timeout_seconds : ℕ
modem_ping_timeout_seconds = 15

abbrev pub mqtt_broker : String
mqtt_broker = "YOUR_ENDPOINT-ats.iot.ap-southeast-1.amazonaws.com"

abbrev pub mqtt_port : ℕ
mqtt_port = 8883

abbrev pub mqtt_client_id : String
mqtt_client_id = "lte-gw-01"

abbrev pub mqtt_keepalive_seconds : ℕ
mqtt_keepalive_seconds = 60

abbrev pub mqtt_ca_file : String
mqtt_ca_file = "certs/AmazonRootCA1.pem"

abbrev pub mqtt_cert_file : String
mqtt_cert_file = "certs/device.pem.crt"

abbrev pub mqtt_key_file : String
mqtt_key_file = "certs/private.pem.key"

abbrev pub http_max_active_requests : ℕ
http_max_active_requests = 6

abbrev pub http_gc_interval_requests : ℕ
http_gc_interval_requests = 10

abbrev pub http_read_size : ℕ
http_read_size = 1024

abbrev pub static_root : String
static_root = "www"

abbrev pub ntp_host : String
ntp_host = "pool.ntp.org"

abbrev pub ntp_retries : ℕ
ntp_retries = 3

abbrev pub ntp_retry_delay_seconds : ℕ
ntp_retry_delay_seconds = 2
