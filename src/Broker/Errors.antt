-- ===== src/Broker/Errors.antt =====
-- `RouteError` of implementations/rust/crates/broker-core/src/lib.rs.
use secure_pub_sub.Protocol.Types.{Error}

pub data RouteError : Type 0 where
  protocol : Error → RouteError
  reserved_identity duplicate_connection connection_limit : RouteError
  ca_queue_full online_queue_full offline_queue_full : RouteError
