-- ===== src/Mqtt.antt =====
-- mqtt_manager.py: what is published under which topic, and the bounded queue in front of the
-- cellular modem.
pub mod Topic
pub mod Queue
pub mod Service
pub mod Events
pub mod Connect
