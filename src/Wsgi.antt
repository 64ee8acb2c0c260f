-- ===== src/Wsgi.antt =====
-- asgiref/wsgi.py
pub mod Messages
pub mod Environ
pub mod Instance
pub mod Began
pub mod Steps
pub mod Protocol
pub mod Cut
pub mod Length
pub mod Exact
pub mod Headers
pub mod Joined
pub mod Refused
pub mod Receive
pub mod Adapter
mod Tests
