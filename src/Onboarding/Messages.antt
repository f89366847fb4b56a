-- ===== src/Onboarding/Messages.antt =====
-- What a tenant's owner reads when its database refuses the agent: internal/controlplane/controller/
-- locale_messages.go, and the Korean texts of onboarding.go.
use mission.Prelude.{if◌then◌else◌, text_beq}
use mission.Prelude.Text.{Text, codes}
use mission.Onboarding.Types.{Locale, english}

unfoldable pub database_error_message_en : Text → Text
database_error_message_en code =
    if text_beq code (codes "INVALID_DSN")
    then codes "The connection string format is invalid. Please double-check the value you pasted."
    else if text_beq code (codes "CONNECT_FAILED")
    then codes
        "Could not connect to the MySQL server. Please check the host, port, firewall, and network access."
    else if text_beq code (codes "AUTH_FAILED")
    then codes "MySQL authentication failed. Please verify the username and password you created."
    else if text_beq code (codes "PRIVILEGE_INVALID")
    then codes "Read-only privilege check failed. Please ensure only SELECT privileges are granted."
    else if text_beq code (codes "WRITE_CONFIG_FAILED")
    then codes
        "Failed to save the agent configuration file. Please check the Docker volume path and write permissions."
    else if text_beq code (codes "TIMEOUT")
    then codes
        "The database verification timed out. Please check the network and server responsiveness."
    else codes
        "Database connection verification failed. Please review your inputs and MySQL permissions."

unfoldable pub database_error_message_ko : Text → Text
database_error_message_ko code =
    if text_beq code (codes "INVALID_DSN")
    then codes "연결 문자열 형식이 올바르지 않습니다. 복사한 값을 다시 확인해 주세요."
    else if text_beq code (codes "CONNECT_FAILED")
    then codes "MySQL 서버에 연결하지 못했습니다. 호스트, 포트, 방화벽, 네트워크 접근을 확인해 주세요."
    else if text_beq code (codes "AUTH_FAILED")
    then codes "MySQL 인증에 실패했습니다. 생성한 사용자와 비밀번호를 다시 확인해 주세요."
    else if text_beq code (codes "PRIVILEGE_INVALID")
    then codes "읽기 전용 권한 확인에 실패했습니다. SELECT 권한만 부여되었는지 확인해 주세요."
    else if text_beq code (codes "WRITE_CONFIG_FAILED")
    then codes "에이전트 로컬 설정 파일을 저장하지 못했습니다. Docker 볼륨 경로와 쓰기 권한을 확인해 주세요."
    else if text_beq code (codes "TIMEOUT")
    then codes "데이터베이스 확인 시간이 초과되었습니다. 네트워크 상태와 서버 응답 속도를 확인해 주세요."
    else codes "데이터베이스 연결 확인에 실패했습니다. 입력값과 MySQL 권한을 다시 확인해 주세요."

unfoldable pub database_error_message : Text → Locale → Text
unfolding database_error_message_en database_error_message_ko
database_error_message code english = database_error_message_en code
database_error_message code _ = database_error_message_ko code
